-- ===== src/CloneSet/Updating/Paths.antt =====
-- The paths of a pod through the states of its lifecycle, and what one sync may do of them.
use kruise.Prelude.{
  not, ℕ, ◌≡◌, String, str_eq, str_eq_iff, Bool, true, false, Option, none, some, List, arith,
  Bool-cases, inl, inr, get_elem?, if◌then◌else◌,
}
use kruise.Prelude.Int.{ℤ, pos, ltb_ℤ}
use kruise.Util.LifecycleState
use kruise.Util.Pods.{Pod, Lifecycle, get_pod_lifecycle_state, equal_to_revision_hash}
use kruise.CloneSet.Refresh.{next_state, after_update, is_through, pre_normal_hook, in_place_hook}
use kruise.CloneSet.Writes.{Change, moves, updates, marks, fixes}
use kruise.CloneSet.Updating.{Update, can_update}

-- A step of the lifecycle during an update.
pub data IsStep : String → String → Type 0 where
  gets_ready : IsStep LifecycleState.preparing_normal LifecycleState.normal
  new_is_held : IsStep LifecycleState.preparing_update LifecycleState.updated
  new_is_back : IsStep LifecycleState.preparing_update LifecycleState.normal
  update_is_held : IsStep LifecycleState.updating LifecycleState.updated
  update_is_over : IsStep LifecycleState.updating LifecycleState.normal
  is_released : IsStep LifecycleState.updated LifecycleState.normal
  first_prepares : IsStep "" LifecycleState.preparing_update
  early_prepares : IsStep LifecycleState.preparing_normal LifecycleState.preparing_update
  prepares : IsStep LifecycleState.normal LifecycleState.preparing_update
  prepares_again : IsStep LifecycleState.updated LifecycleState.preparing_update

-- A state in which the containers may be changed in place.
pub data MayUpdate : String → Type 0 where
  at_first : MayUpdate ""
  early : MayUpdate LifecycleState.preparing_normal
  normally : MayUpdate LifecycleState.normal
  prepared : MayUpdate LifecycleState.preparing_update
  once_more : MayUpdate LifecycleState.updating

-- The pod is one of them.
abbrev pub IsOne : List Pod → Pod → Type 0
IsOne pods p = (i : ℕ) × (get_elem? pods i ≡ some p)

-- The pod is not being deleted, and is not of the revision to which the pods are to go: that is the
-- update revision if there are pods to update, and the current one if there are pods to take back.
abbrev pub IsUpdatable : Update → ℤ → Pod → Type 0
IsUpdatable u num p =
    (str_eq (get_pod_lifecycle_state p) LifecycleState.preparing_delete ≡ false)
    × (equal_to_revision_hash p u.update_revision ≡ not (ltb_ℤ (pos 0) num))

pub can_update-IsUpdatable :
    (u : Update) (num : ℤ) (p : Pod) → can_update u num p ≡ true → IsUpdatable u num p
unfolding can_update
can_update-IsUpdatable u num p h = ground (arith, h)

-- What an update may do: move a pod along a step; change one in place, or mark it for deletion, if
-- it is one to update; and add a missing hash label.
abbrev pub IsLawful : Update → ℤ → List Pod → Change → Type 0
IsLawful u num pods (moves n state) =
    (p : Pod) × IsOne pods p × (p.name ≡ n) × IsStep (get_pod_lifecycle_state p) state
IsLawful u num pods (updates n) =
    (p : Pod) × IsOne pods p
    × (p.name ≡ n)
    × IsUpdatable u num p
    × MayUpdate (get_pod_lifecycle_state p)
IsLawful u num pods (marks n) = (p : Pod) × IsOne pods p × (p.name ≡ n) × IsUpdatable u num p
IsLawful u num pods (fixes n) = (p : Pod) × IsOne pods p × (p.name ≡ n)

pub at_state : (P : String → Type 0) (a b : String) → str_eq a b ≡ true → P b → P a
at_state P a b e h = let same : a ≡ b = ground (arith, str_eq_iff a b) in rw same h

abbrev pub MaySome : (String → Type 0) → Option String → Type 0
MaySome P none = Unit
MaySome P (some state) = P state

guarded :
    (P : String → Type 0) (t : Bool) (b : String) → P b → MaySome P (if t then some b else none)
guarded P true b h = h
guarded P false b h = tt

either : (P : String → Type 0) (t : Bool) (b c : String) → P b → P c → P (if t then b else c)
either P true b c h k = h
either P false b c h k = k

pub next_state-IsStep :
    (l : Option Lifecycle) (revision : String) (completed : Bool) (pod : Pod)
    → MaySome (IsStep (get_pod_lifecycle_state pod)) (next_state l revision completed pod)
unfolding next_state
next_state-IsStep l revision completed pod =
    let state = get_pod_lifecycle_state pod in
    elim (Bool-cases (str_eq state LifecycleState.preparing_normal)) [
      | inl e ↦ rw e (
          guarded (IsStep state) (is_through (pre_normal_hook l) pod) LifecycleState.normal
            (at_state (λ s. IsStep s LifecycleState.normal) state _ e gets_ready))
      | inr n1 ↦ elim (Bool-cases (str_eq state LifecycleState.preparing_update)) [
        | inl e ↦
            rw (n1, e)
              (guarded (IsStep state) (equal_to_revision_hash pod revision) (after_update l pod) (
                at_state (λ s. IsStep s (after_update l pod)) state LifecycleState.preparing_update
                  e
                  (either (IsStep LifecycleState.preparing_update) _ LifecycleState.updated
                    LifecycleState.normal new_is_held new_is_back)))
        | inr n2 ↦ elim (Bool-cases (str_eq state LifecycleState.updating)) [
          | inl e ↦
              rw (n1, n2, e)
                (guarded (IsStep state) completed (after_update l pod) (
                  at_state (λ s. IsStep s (after_update l pod)) state LifecycleState.updating e
                    (either (IsStep LifecycleState.updating) _ LifecycleState.updated
                      LifecycleState.normal update_is_held update_is_over)))
          | inr n3 ↦ elim (Bool-cases (str_eq state LifecycleState.updated)) [
            | inl e ↦
                rw (n1, n2, n3, e)
                  (guarded (IsStep state) (is_through (in_place_hook l) pod) LifecycleState.normal
                    (at_state (λ s. IsStep s LifecycleState.normal) state _ e is_released))
            | inr n4 ↦ rw (n1, n2, n3, n4) tt
          ]
        ]
      ]
    ]
