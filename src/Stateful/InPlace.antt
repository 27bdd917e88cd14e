-- ===== src/Stateful/InPlace.antt =====
-- `inPlaceUpdatePod` of pkg/controller/statefulset/stateful_set_control.go.
pub mod Sends
use kruise.Prelude.{
  ℕ, zero, suc, ◌+◌, String, str_eq, Bool, true, false, ◌&&◌, ◌||◌, not, Option, none, some, List,
  [], ◌∷◌, ◌++◌, if◌then◌else◌, get_elem?, length, take, is_some, leb,
}
use kruise.Prelude.Int.{ℤ, pos, pos_part, ◌-ℤ◌, ltb_ℤ, leb_ℤ, eqb_ℤ}
use kruise.Prelude.Assoc.{Names, has, add}
use kruise.Util.LifecycleState
use kruise.Util.Pods.{
  Lifecycle, LifecycleHook, get_pod_lifecycle_state, is_pod_hooked, is_pod_all_hooked,
  is_pod_update, is_hook_mark_pod_not_ready, label, controller_revision_hash_key,
}
use kruise.Util.Tools.{IntOrString, int}
use kruise.Expectations.Update
use kruise.Expectations.Update.{expect_updated, satisfied_expectations}
use kruise.CloneSet.Types.{value_or_default}
use kruise.CloneSet.Writes.{
  LifecycleUpdate, failed, unchanged, updated, update_pod_lifecycle,
  update_pod_lifecycle_with_handler,
}
use kruise.CloneSet.Refresh.{in_place_hook, is_through, after_update}
use kruise.Stateful.Types.{
  Pod, RollingUpdate, PodUpdatePolicy, Sent, moves, in_place, InPlaceUpdate, not_in_place,
  update_error, stored, get_pod_revision, is_healthy, is_running_and_available,
}
use kruise.Stateful.Pass.{
  Pass, Run, Step, returns, goes_on, push_after, delete_pod, get_min_ready_seconds, one_if,
}

-- The revision of the history whose name a pod has.
abbrev pub old_revision : Pod → List String → Option String
old_revision pod [] = none
old_revision pod (n ∷ ns) = if str_eq n (get_pod_revision pod) then some n else old_revision pod ns

-- What `inPlaceUpdatePod` comes to: an error, or whether the pod is updated in place.
pub data InPlacing : Type 0 where
  fails : Run → InPlacing
  answers : Bool → Run → InPlacing

abbrev pub prepared : Pod → Run → LifecycleUpdate → InPlacing
prepared pod r failed = fails r
prepared pod r unchanged = answers true r
prepared pod r (updated got) =
    answers true (record r { log = moves pod LifecycleState.preparing_update ∷ r.log })

-- The end of `inPlaceUpdatePod`.
abbrev pub back_off : Run → PodUpdatePolicy → InPlacing
back_off r PodUpdatePolicy.in_place_only = fails r
back_off r PodUpdatePolicy.in_place_if_possible = answers false r
back_off r PodUpdatePolicy.recreate = answers false r

abbrev pub object_of : Pass → Pod → Update.Object
object_of p pod = record {
  namespace = p.world.text pod.identity.namespace;
  name = pod.meta.name;
  labels = pod.meta.labels;
}

abbrev pub carried_out : Pass → Pod → Run → PodUpdatePolicy → InPlaceUpdate → InPlacing
carried_out p pod r policy not_in_place = back_off r policy
carried_out p pod r policy (update_error delay) = fails (push_after p.key delay r)
carried_out p pod r policy (stored delay) =
    let pushed = push_after p.key delay r in
    answers true (record pushed {
      expectations = expect_updated pushed.expectations p.key p.update_revision (object_of p pod);
      log = in_place pod ∷ pushed.log;
    })

-- The switch on the state of a pod that can be updated in place.
unfoldable pub update_in_place : Pass → PodUpdatePolicy → Pod → Run → InPlacing
unfolding get_pod_lifecycle_state
update_in_place p policy pod r =
    let state = get_pod_lifecycle_state pod.meta in
    let hook = in_place_hook p.set.lifecycle in
    let hooked = is_pod_hooked hook pod.meta in
    let carry = carried_out p pod r policy (p.world.update_in_place r.log pod) in
    if str_eq state "" || str_eq state LifecycleState.normal
    then if hooked
      then prepared pod r (
          update_pod_lifecycle p.world.api pod.meta LifecycleState.preparing_update
            (is_hook_mark_pod_not_ready hook))
      else carry
    else if str_eq state LifecycleState.updated
    then prepared pod r (
        update_pod_lifecycle_with_handler p.world.api p.world.patch_with_hook pod.meta
          LifecycleState.preparing_update hook)
    else if str_eq state LifecycleState.preparing_update
    then if hooked then answers true r else carry
    else if str_eq state LifecycleState.updating
    then carry
    else fails r

abbrev pub try_in_place : Pass → PodUpdatePolicy → Pod → Run → InPlacing
try_in_place p policy pod r =
    if p.world.can_update_in_place (old_revision pod p.revisions) p.update_revision
    then update_in_place p policy pod r
    else back_off r policy

abbrev pub by_policy : Pass → PodUpdatePolicy → Pod → Run → InPlacing
by_policy p PodUpdatePolicy.recreate pod r = answers false r
by_policy p PodUpdatePolicy.in_place_if_possible pod r =
    try_in_place p PodUpdatePolicy.in_place_if_possible pod r
by_policy p PodUpdatePolicy.in_place_only pod r = try_in_place p PodUpdatePolicy.in_place_only pod r

-- `inPlaceUpdatePod`.
unfoldable pub in_place_update_pod : Pass → Pod → Run → InPlacing
unfolding update_in_place
in_place_update_pod p pod r = elim p.set.rolling_update [
  | none ↦ answers false r
  | some u ↦ by_policy p u.pod_update_policy pod r
]
