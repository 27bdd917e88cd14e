-- ===== src/Stateful/Rolling.antt =====
-- `rollingUpdateStatefulsetPods` of pkg/controller/statefulset/stateful_set_control.go, with
-- `sortPodsToUpdate` of stateful_update_utils.go.
pub mod Within
pub mod Targets
pub mod Unavailable
use kruise.Prelude.{
  ℕ, zero, suc, ◌+◌, String, str_eq, Bool, true, false, ◌&&◌, ◌||◌, not, Option, none, some, List,
  [], ◌∷◌, ◌++◌, if◌then◌else◌, get_elem?, length, take, is_some, leb,
}
use kruise.Prelude.Int.{ℤ, pos, pos_part, ◌-ℤ◌, ltb_ℤ, leb_ℤ, eqb_ℤ}
use kruise.Prelude.Assoc.{Names, has, add}
use kruise.Util.LifecycleState
use kruise.Util.Pods.{
  Lifecycle, LifecycleHook, get_pod_lifecycle_state, is_pod_hooked, is_pod_all_hooked,
  is_pod_update, is_hook_mark_pod_not_ready, label, controller_revision_hash_key,
}
use kruise.Util.Tools.{IntOrString, int}
use kruise.Expectations.Update
use kruise.Expectations.Update.{expect_updated, satisfied_expectations}
use kruise.CloneSet.Types.{value_or_default}
use kruise.CloneSet.Writes.{
  LifecycleUpdate, failed, unchanged, updated, update_pod_lifecycle,
  update_pod_lifecycle_with_handler,
}
use kruise.CloneSet.Refresh.{in_place_hook, is_through, after_update}
use kruise.Stateful.Types.{
  Pod, RollingUpdate, PodUpdatePolicy, Sent, moves, in_place, InPlaceUpdate, not_in_place,
  update_error, stored, get_pod_revision, is_healthy, is_running_and_available,
}
use kruise.Stateful.Pass.{
  Pass, Run, Step, returns, goes_on, push_after, delete_pod, get_min_ready_seconds, one_if,
}
use kruise.Stateful.Refresh.{refresh_pods}
use kruise.Stateful.InPlace.{InPlacing, fails, answers, in_place_update_pod}

-- `appsv1beta1.MaxMinReadySeconds`, in nanoseconds.
abbrev max_min_ready : ℤ
max_min_ready = pos 300000000000

-- The names of the replicas that count as unavailable. A wait is noted if it is no longer than
-- `min_wait_time`, the shortest before it.
unfoldable pub find_unavailable : Pass → List (Option Pod) → Names → ℤ → Run → Names × Run
unfolding is_healthy get_min_ready_seconds
find_unavailable p [] names min_wait_time r = (names, r)
find_unavailable p (none ∷ rest) names min_wait_time r =
    find_unavailable p rest names min_wait_time r
find_unavailable p (some pod ∷ rest) names min_wait_time r =
    let (available, wait_time) =
      is_running_and_available (pos p.world.now) (get_min_ready_seconds p.set) pod in
    let serves = is_healthy pod && p.world.is_update_completed pod in
    let waits =
      serves
      && (not available && (not (eqb_ℤ wait_time (pos 0)) && leb_ℤ wait_time min_wait_time)) in
    find_unavailable p rest (if serves && available then names else add pod.meta.name names)
      (if waits then wait_time else min_wait_time)
      (if waits then push_after p.key wait_time r else r)

-- The places of the pods from `i` on, the last first.
unfoldable pub places : ℕ → List (Option Pod) → List ℕ
places i [] = []
places i (none ∷ rest) = places (i + 1) rest
places i (some pod ∷ rest) = places (i + 1) rest ++ i ∷ []

abbrev keep_from : ℤ → List ℕ → List ℕ
keep_from updateMin [] = []
keep_from updateMin (i ∷ is) =
    let rest = keep_from updateMin is in if leb_ℤ updateMin (pos i) then i ∷ rest else rest

-- Whether the pod at `i` is terminating or of the new revision.
abbrev pub counts_as_updated : Pass → List (Option Pod) → ℕ → Bool
counts_as_updated p replicas i = elim (get_elem? replicas i) [
  | none ↦ false
  | some none ↦ false
  | some (some pod) ↦
      pod.terminating || is_pod_update p.world.preparing_update_as_update pod.meta p.update_revision
]

abbrev keep_at : (ℕ → Bool) → List ℕ → List ℕ
keep_at test [] = []
keep_at test (i ∷ is) = let rest = keep_at test is in if test i then i ∷ rest else rest

abbrev unordered : Pass → List (Option Pod) → ℤ → List ℕ → List ℕ
unordered p replicas max_update waiting =
    let done = keep_at (λ i. counts_as_updated p replicas i) (places 0 replicas) in
    if leb_ℤ max_update (pos 0) then [] else take (pos_part max_update) (done ++ waiting)

-- `sortPodsToUpdate`. A negative partition, with which the source would read out of range, is refused
-- by the webhook of the StatefulSet.
unfoldable pub sort_pods_to_update : Pass → Option RollingUpdate → List (Option Pod) → List ℕ
unfolding places
sort_pods_to_update p none replicas = places 0 replicas
sort_pods_to_update p (some u) replicas =
    let waiting = keep_at (λ i. not (counts_as_updated p replicas i)) (places 0 replicas) in
    elim u.unordered_update [
      | none ↦ keep_from u.partition (places 0 replicas)
      | some none ↦ unordered p replicas (p.set.replicas -ℤ u.partition) waiting
      | some (some strategy) ↦
          unordered p replicas (p.set.replicas -ℤ u.partition)
            (p.world.sort_by_priority strategy replicas waiting)
    ]

-- A pod that is not updated in place is deleted; `none` is an error.
abbrev after_deletion : Run → Option (Bool × List Sent) → Option Run
after_deletion r none = none
after_deletion r (some (modified, log)) = some (record r { log = log })

abbrev deleted : Pass → Pod → InPlacing → Option Run
deleted p pod (fails r) = none
deleted p pod (answers true r) = some r
deleted p pod (answers false r) = after_deletion r (delete_pod p pod r.log)

abbrev after_error : Run → InPlacing → Run
after_error r (fails r') = r'
after_error r (answers b r') = r'

-- A target is taken down or updated in place.
unfoldable pub update_target : Pass → Pod → Run → Option Run
unfolding in_place_update_pod delete_pod
update_target p pod r = deleted p pod (in_place_update_pod p pod r)

-- A pod of the current revision is no longer counted.
abbrev pub counts_current : Pass → Pod → Run → Run
counts_current p pod r = record r {
  status = record r.status {
    current_replicas =
        r.status.current_replicas -ℤ one_if (str_eq (get_pod_revision pod) p.current_revision);
  };
}

-- The loop over the indexes: the status that is returned, and whether with an error. `none` is the
-- panic of an index that is not that of a pod. What an in-place update pushes before an error stays.
unfoldable pub update_targets :
    Pass → ℤ → List (Option Pod) → List ℕ → Names → Run → Option (Run × Bool)
unfolding update_target
update_targets p max_unavailable replicas [] names r = some (r, false)
update_targets p max_unavailable replicas (i ∷ is) names r = elim (get_elem? replicas i) [
  | none ↦ none
  | some none ↦ none
  | some (some pod) ↦
      let next = update_targets p max_unavailable replicas is names r in
      if str_eq (get_pod_revision pod) p.update_revision
      then next
      else if leb_ℤ max_unavailable (pos (length names)) && not (has pod.meta.name names)
      then some (r, false)
      else if pod.terminating
      then next
      else elim (update_target p pod r) [
        | none ↦ some (after_error r (in_place_update_pod p pod r), true)
        | some r' ↦
            update_targets p max_unavailable replicas is (add pod.meta.name names)
              (counts_current p pod r')
      ]
]

-- A maximum that is read, at least 1.
abbrev at_least_one : ℤ → ℤ
at_least_one n = if ltb_ℤ n (pos 1) then pos 1 else n

abbrev read_maximum : Pass → RollingUpdate → Option ℤ
read_maximum p u =
    elim (p.world.get_value_from_int_or_percent (value_or_default u.max_unavailable (int (pos 1)))
      p.set.replicas false) [ none ↦ none | some n ↦ some (at_least_one n) ]

-- The maximum of unavailable pods, `none` for an error.
unfoldable pub rolling_max_unavailable : Pass → Option ℤ
rolling_max_unavailable p = elim p.set.rolling_update [
  | none ↦ some (pos 1)
  | some u ↦ read_maximum p u
]

abbrev paused : Option RollingUpdate → Bool
paused none = false
paused (some u) = u.paused

unfoldable pub update_with_maximum : Pass → ℤ → Run → Option (Run × Bool)
unfolding find_unavailable sort_pods_to_update update_targets
update_with_maximum p max_unavailable r =
    let (names, r') = find_unavailable p r.replicas [] max_min_ready r in
    update_targets p max_unavailable r.replicas
      (sort_pods_to_update p p.set.rolling_update r.replicas) names r'

abbrev after_refresh : Pass → Step → Option (Run × Bool)
after_refresh p (returns error r) = some (r, error)
after_refresh p (goes_on r) =
    if paused p.set.rolling_update then some (r, false) else elim (rolling_max_unavailable p) [
      | none ↦ some (r, true)
      | some n ↦ update_with_maximum p n r
    ]

-- `rollingUpdateStatefulsetPods`, on the pods of the set: what was done, and whether there was an
-- error.
unfoldable pub rolling_update_stateful_set_pods : Pass → List Pod → Run → Option (Run × Bool)
unfolding refresh_pods rolling_max_unavailable update_with_maximum
rolling_update_stateful_set_pods p pods r =
    let verdict = satisfied_expectations p.world.now r.expectations p.key p.update_revision in
    let seen = record r { expectations = verdict.cache } in
    if not verdict.satisfied
    then some (seen, false)
    else after_refresh p (refresh_pods p pods false seen)
