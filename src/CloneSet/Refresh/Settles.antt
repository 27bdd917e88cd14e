-- ===== src/CloneSet/Refresh/Settles.antt =====
-- A pod that nothing holds any more comes to rest.
use kruise.Prelude.{
  ◌≡◌, ◌⊎◌, refl, String, Bool, true, ◌&&◌, not, Option, none, some, Bool-cases, inl, inr, is_some,
}
use kruise.Util.LifecycleState
use kruise.Util.Pods.{
  Pod, Lifecycle, get_pod_lifecycle_state, set_pod_lifecycle, equal_to_revision_hash,
  is_pod_all_hooked,
}
use kruise.Util.Pods.Labels.{label-insert}
use kruise.CloneSet.Refresh.{pre_normal_hook, in_place_hook, is_through, after_update, next_state}

abbrev moved_to : Pod → Option String → Pod
moved_to pod none = pod
moved_to pod (some state) = set_pod_lifecycle state pod

-- The pod after a refresh whose write has reached the cache.
unfoldable pub round : Option Lifecycle → String → (Pod → Bool) → Pod → Pod
round l revision completed pod = moved_to pod (next_state l revision (completed pod) pod)

-- The pod is on its way, and what it waits for has come: it is of the revision to which it was
-- prepared, or its update is completed.
abbrev pub IsUnderway : String → (Pod → Bool) → Pod → Type 0
IsUnderway revision completed pod =
    let state = get_pod_lifecycle_state pod in
    (state ≡ LifecycleState.preparing_normal)
    ⊎ (((state ≡ LifecycleState.preparing_update) × (equal_to_revision_hash pod revision ≡ true))
        ⊎ (((state ≡ LifecycleState.updating) × (completed pod ≡ true))
            ⊎ (state ≡ LifecycleState.updated)))

-- Neither hook holds the pod, in whatever state it is.
abbrev pub IsReleased : Option Lifecycle → Pod → Type 0
IsReleased l pod =
    (state : String)
    → (is_through (pre_normal_hook l) (set_pod_lifecycle state pod) ≡ true)
      × (is_through (in_place_hook l) (set_pod_lifecycle state pod) ≡ true)

state-set :
    (state : String) (pod : Pod) → get_pod_lifecycle_state (set_pod_lifecycle state pod) ≡ state
unfolding get_pod_lifecycle_state set_pod_lifecycle
state-set state pod = label-insert LifecycleState.key LifecycleState.key state pod

abbrev IsNext : Option String → Type 0
IsNext o = (o ≡ some LifecycleState.normal) ⊎ (o ≡ some LifecycleState.updated)

after_update-IsNext : (l : Option Lifecycle) (pod : Pod) → IsNext (some (after_update l pod))
after_update-IsNext l pod =
    elim (Bool-cases (is_some l && not (is_pod_all_hooked (in_place_hook l) pod))) [
      | inl held ↦ rw held (inr refl)
      | inr free ↦ rw free (inl refl)
    ]

next_state-updated :
    (l : Option Lifecycle) (revision : String) (completed : Bool) (pod : Pod)
    → get_pod_lifecycle_state pod ≡ LifecycleState.updated
    → is_through (in_place_hook l) pod ≡ true
    → next_state l revision completed pod ≡ some LifecycleState.normal
unfolding next_state
next_state-updated l revision completed pod s free = rw (s, free) refl

next_state-normal :
    (l : Option Lifecycle) (revision : String) (completed : Bool) (pod : Pod)
    → get_pod_lifecycle_state pod ≡ LifecycleState.normal
    → next_state l revision completed pod ≡ none
unfolding next_state
next_state-normal l revision completed pod s = rw s refl

next_state-IsNext :
    (l : Option Lifecycle) (revision : String) (completed : Pod → Bool) (pod : Pod)
    → IsUnderway revision completed pod
    → is_through (pre_normal_hook l) pod ≡ true
    → is_through (in_place_hook l) pod ≡ true
    → IsNext (next_state l revision (completed pod) pod)
unfolding next_state
next_state-IsNext l revision completed pod (inl s) p q = rw (s, p) (inl refl)
next_state-IsNext l revision completed pod (inr (inl (s, e))) p q =
    rw (s, e) (after_update-IsNext l pod)
next_state-IsNext l revision completed pod (inr (inr (inl (s, e)))) p q =
    rw (s, e) (after_update-IsNext l pod)
next_state-IsNext l revision completed pod (inr (inr (inr s))) p q = rw (s, q) (inl refl)

-- The pod is in the state Normal, and a refresh leaves it there.
abbrev pub IsAtRest : Option Lifecycle → String → (Pod → Bool) → Pod → Type 0
IsAtRest l revision completed pod =
    (get_pod_lifecycle_state pod ≡ LifecycleState.normal)
    × (next_state l revision (completed pod) pod ≡ none)

-- A pod that is on its way, whose wait is over and which neither hook holds: after two refreshes it
-- is in the state Normal, and the next one leaves it there.
pub round-IsAtRest :
    (l : Option Lifecycle) (revision : String) (completed : Pod → Bool) (pod : Pod)
    → IsUnderway revision completed pod
    → is_through (pre_normal_hook l) pod ≡ true
    → is_through (in_place_hook l) pod ≡ true
    → IsReleased l pod
    → IsAtRest l revision completed (round l revision completed (round l revision completed pod))
unfolding round
round-IsAtRest l revision completed pod way p q free =
    elim (next_state-IsNext l revision completed pod way p q) [
      | inl e ↦
          let one = set_pod_lifecycle LifecycleState.normal pod in
          let s = state-set LifecycleState.normal pod in
          let rests = next_state-normal l revision (completed one) one s in rw (e, rests) (s, rests)
      | inr e ↦
          let one = set_pod_lifecycle LifecycleState.updated pod in
          let two = set_pod_lifecycle LifecycleState.normal one in
          let goes =
            next_state-updated l revision (completed one) one (state-set LifecycleState.updated pod)
              (free LifecycleState.updated).1 in
          let s = state-set LifecycleState.normal one in
          rw (e, goes) (s, next_state-normal l revision (completed two) two s)
    ]
