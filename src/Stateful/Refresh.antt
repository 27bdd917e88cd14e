-- ===== src/Stateful/Refresh.antt =====
-- `refreshPodState` of pkg/controller/statefulset/stateful_set_control.go, and the loop of
-- `rollingUpdateStatefulsetPods` that calls it.
use kruise.Prelude.{
  String, str_eq, Bool, true, false, ◌||◌, not, Option, none, some, List, [], ◌∷◌, if◌then◌else◌,
  is_some,
}
use kruise.Prelude.Int.{ℤ, pos}
use kruise.Util.LifecycleState
use kruise.Util.Pods.{Lifecycle, get_pod_lifecycle_state, is_hook_mark_pod_not_ready}
use kruise.CloneSet.Writes.{LifecycleUpdate, failed, unchanged, updated, update_pod_lifecycle}
use kruise.CloneSet.Refresh.{in_place_hook, is_through, after_update}
use kruise.Stateful.Types.{Pod, Sent, moves, get_pod_revision}
use kruise.Stateful.Pass.{Pass, Run, Step, returns, goes_on, push_after}

-- The switch of `refreshPodState`. `completed` tells whether the kubelet has carried out the update.
unfoldable pub next_state : Option Lifecycle → String → Bool → Pod → Option String
unfolding get_pod_lifecycle_state
next_state lifecycle update_revision completed pod =
    let state = get_pod_lifecycle_state pod.meta in
    if str_eq state LifecycleState.preparing_update
    then if str_eq (get_pod_revision pod) update_revision
      then some (after_update lifecycle pod.meta)
      else none
    else if str_eq state LifecycleState.updating
    then if completed then some (after_update lifecycle pod.meta) else none
    else if str_eq state LifecycleState.updated
    then if is_through (in_place_hook lifecycle) pod.meta then some LifecycleState.normal else none
    else none

-- A refreshed pod: whether it was changed, with the time after which to look again.
pub record Refreshed : Type 0 where
  pub modified : Bool
  pub duration : ℤ
  pub log : List Sent

abbrev moved : Pod → String → ℤ → List Sent → LifecycleUpdate → Option Refreshed
moved pod state delay log failed = none
moved pod state delay log unchanged =
    some (record { modified = false; duration = delay; log = log })
moved pod state delay log (updated got) =
    some (record { modified = true; duration = delay; log = moves pod state ∷ log })

-- `refreshPodState`; `none` is an error.
unfoldable pub refresh_pod_state : Pass → Pod → List Sent → Option Refreshed
unfolding next_state
refresh_pod_state p pod log =
    if not (is_some p.set.rolling_update)
    then some (record { modified = false; duration = pos 0; log = log })
    else elim (p.world.refresh log pod) [
      | none ↦ none
      | some delay ↦
          elim (next_state p.set.lifecycle p.update_revision (p.world.is_update_completed pod)
            pod) [
              | none ↦ some (record { modified = false; duration = delay; log = log })
              | some state ↦ moved pod state delay log (
                  update_pod_lifecycle p.world.api pod.meta state
                    (is_hook_mark_pod_not_ready (in_place_hook p.set.lifecycle)))
            ]
    ]

-- The first loop: `modified` tells whether a pod was changed before.
unfoldable pub refresh_pods : Pass → List Pod → Bool → Run → Step
unfolding refresh_pod_state
refresh_pods p [] modified r = if modified then returns false r else goes_on r
refresh_pods p (pod ∷ pods) modified r = elim (refresh_pod_state p pod r.log) [
  | none ↦ returns true r
  | some a ↦
      refresh_pods p pods (modified || a.modified)
        (push_after p.key a.duration (record r { log = a.log }))
]
