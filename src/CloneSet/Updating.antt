-- ===== src/CloneSet/Updating.antt =====
-- `Update` of pkg/controller/cloneset/sync/cloneset_update.go: one sync of the revision of pods.
pub mod Paths
pub mod Lawful
pub mod Changes
pub mod Sync
mod Examples
use kruise.Prelude.{
  ℕ, ◌+◌, String, str_eq, Bool, true, false, ◌&&◌, ◌||◌, not, Option, none, some, List, [], ◌∷◌,
  if◌then◌else◌, get_elem?,
}
use kruise.Prelude.Int.{ℤ, pos, ltb_ℤ, eqb_ℤ}
use kruise.Util.LifecycleState
use kruise.Util.Pods.{
  Pod, Lifecycle, LifecycleHook, get_pod_lifecycle_state, is_pod_hooked, is_specified_delete,
  equal_to_revision_hash,
}
use kruise.Util.Requeue.{push}
use kruise.Expectations.ResourceVersion
use kruise.CloneSet.Types.{CloneSet, Env}
use kruise.CloneSet.Diff.{ExpectationDiffs, calculate_diffs_with_expectation}
use kruise.CloneSet.Limit.{limit_update_indexes}
use kruise.CloneSet.Writes.{
  Api, Written, LifecycleUpdate, failed, unchanged, updated, update_pod_lifecycle,
  update_pod_lifecycle_with_handler, note, Change, moves, updates, marks,
}
use kruise.CloneSet.Refresh.{InPlace, Refreshed, refresh_pods, in_place_hook}

-- The types of the update strategy.
pub data UpdateType : Type 0 where
  recreate : UpdateType
  in_place_if_possible : UpdateType
  in_place_only : UpdateType

-- What `inplaceControl.Update` answers: that the pod can not be updated in place after all, an
-- error, or the version that is stored; with the time after which to look again.
pub data InPlaceUpdate : Type 0 where
  not_in_place : InPlaceUpdate
  update_error : ℤ → InPlaceUpdate
  stored : ResourceVersion.Object → ℤ → InPlaceUpdate

-- What an update is given besides: the revisions of the history, the answers of pkg/util/inplaceupdate
-- and of the budgets (`none` is an error), the patches, and the order of the indexes.
pub record Update : Type 0 where
  pub api : Api
  pub env : Env
  pub in_place : InPlace
  pub key : String
  pub cs : CloneSet
  pub update_type : UpdateType
  pub current_revision : String
  pub update_revision : String
  pub revisions : List String
  pub grace_period : Pod → String
  pub can_update_in_place : Option String → String → Bool
  pub update_in_place : Pod → String → InPlaceUpdate
  pub patch_with_hook : Pod → String → LifecycleHook → Option ResourceVersion.Object
  pub patch_specified_delete : Pod → Option ResourceVersion.Object
  pub budget_gate : Bool
  pub budget_allows : List Change → Pod → Option Bool
  pub sort : List Pod → List ℕ → List ℕ

abbrev pub old_revision : Pod → List String → Option String
old_revision pod [] = none
old_revision pod (r ∷ rs) = if equal_to_revision_hash pod r then some r else old_revision pod rs

-- What `updatePod` comes to, with the time after which to look again.
pub record Step : Type 0 where
  pub written : Written
  pub duration : ℤ
  pub failed : Bool

abbrev pub done : Written → Step
done w = record { written = w; duration = pos 0; failed = false }

abbrev pub fails : Written → Step
fails w = record { written = w; duration = pos 0; failed = true }

abbrev pub prepared : Pod → Written → LifecycleUpdate → Step
prepared pod w failed = fails w
prepared pod w unchanged = done w
prepared pod w (updated got) = done (note (moves pod.name LifecycleState.preparing_update) got w)

abbrev pub marked : Pod → Written → Option ResourceVersion.Object → Step
marked pod w none = fails w
marked pod w (some got) = done (note (marks pod.name) got w)

-- The end of `updatePod`: the pod is marked, so that it will be deleted and created anew.
abbrev pub recreated : Update → Pod → Written → Step
recreated u pod w =
    if is_specified_delete pod then done w else marked pod w (u.patch_specified_delete pod)

abbrev pub back_off : Update → Pod → Written → UpdateType → Step
back_off u pod w in_place_only = fails w
back_off u pod w in_place_if_possible = recreated u pod w
back_off u pod w recreate = recreated u pod w

abbrev pub carried_out : Update → Pod → Written → InPlaceUpdate → Step
carried_out u pod w not_in_place = back_off u pod w u.update_type
carried_out u pod w (update_error delay) = record { written = w; duration = delay; failed = true }
carried_out u pod w (stored got delay) = record {
  written = note (updates pod.name) got w;
  duration = delay;
  failed = false;
}

abbrev pub in_place_hooked : Update → Pod → Bool
in_place_hooked u pod = is_pod_hooked (in_place_hook u.cs.lifecycle) pod

abbrev pub hook_marks : Option LifecycleHook → Bool
hook_marks none = false
hook_marks (some h) = h.mark_pod_not_ready

-- The switch on the state of a pod that can be updated in place.
unfoldable pub update_pod_in_place : Update → String → Pod → Written → Step
unfolding get_pod_lifecycle_state
update_pod_in_place u target pod w =
    let state = get_pod_lifecycle_state pod in
    let hook = in_place_hook u.cs.lifecycle in
    let carry = carried_out u pod w (u.update_in_place pod target) in
    if str_eq state ""
      || (str_eq state LifecycleState.preparing_normal || str_eq state LifecycleState.normal)
    then if in_place_hooked u pod
      then prepared pod w
          (update_pod_lifecycle u.api pod LifecycleState.preparing_update (hook_marks hook))
      else carry
    else if str_eq state LifecycleState.updated
    then prepared pod w (
        update_pod_lifecycle_with_handler u.api u.patch_with_hook pod
          LifecycleState.preparing_update hook)
    else if str_eq state LifecycleState.preparing_update
    then if in_place_hooked u pod then done w else carry
    else if str_eq state LifecycleState.updating
    then carry
    else fails w

abbrev pub try_in_place : Update → String → Pod → Written → UpdateType → Step
try_in_place u target pod w type =
    if u.can_update_in_place (old_revision pod u.revisions) target
    then update_pod_in_place u target pod w
    else back_off u pod w type

abbrev pub update_pod_by : Update → String → Pod → Written → UpdateType → Step
update_pod_by u target pod w recreate = recreated u pod w
update_pod_by u target pod w in_place_if_possible = try_in_place u target pod w in_place_if_possible
update_pod_by u target pod w in_place_only = try_in_place u target pod w in_place_only

-- `updatePod`.
unfoldable pub update_pod : Update → String → Pod → Written → Step
unfolding update_pod_in_place
update_pod u target pod w = update_pod_by u target pod w u.update_type

-- A pod waits for an update if it is of the wrong revision, and may be updated unless it is going
-- away or in its grace period. No pod of a CloneSet is paused by itself.
unfoldable pub can_update : Update → ℤ → Pod → Bool
unfolding get_pod_lifecycle_state
can_update u update_num pod =
    let state = get_pod_lifecycle_state pod in
    let is_new = equal_to_revision_hash pod u.update_revision in
    let waits = if ltb_ℤ (pos 0) update_num then not is_new else is_new in
    waits
    && (if str_eq state LifecycleState.preparing_delete
        then false
        else if str_eq state LifecycleState.updated
        then true
        else str_eq (u.grace_period pod) "")

unfoldable pub wait_update_indexes : Update → ℤ → List Pod → ℕ → List ℕ
unfolding can_update
wait_update_indexes u update_num [] i = []
wait_update_indexes u update_num (pod ∷ pods) i =
    let rest = wait_update_indexes u update_num pods (i + 1) in
    if can_update u update_num pod then i ∷ rest else rest

abbrev pub pushed : Update → ℤ → Written → Written
pushed u delay w =
    if ltb_ℤ (pos 0) delay then record w { requeue = push w.requeue u.key delay } else w

abbrev pub second : ℤ
second = pos 1000000000

abbrev pub admitted : Update → Written → Pod → Option Bool
admitted u w pod = if u.budget_gate then u.budget_allows w.changes pod else some true

-- The last loop of `Update`: what was written, and whether there was an error. `none` is the panic
-- of an index out of range.
unfoldable pub update_pods_at :
    Update → String → List Pod → List ℕ → Written → Option (Written × Bool)
unfolding update_pod
update_pods_at u target pods [] w = some (w, false)
update_pods_at u target pods (i ∷ is) w = elim (get_elem? pods i) [
  | none ↦ none
  | some pod ↦
      let s = update_pod u target pod w in
      let after = pushed u s.duration s.written in
      let rest = update_pods_at u target pods is after in
      elim (admitted u w pod) [
        | none ↦ some (w, true)
        | some false ↦ some (record w { requeue = push w.requeue u.key second }, false)
        | some true ↦ if s.failed then some (after, true) else rest
      ]
]

abbrev pub update_indexes : Update → ExpectationDiffs → String → List Pod → Option (List ℕ)
update_indexes u diff target pods =
    limit_update_indexes u.env u.cs.min_ready_seconds pods diff
      (u.sort pods (wait_update_indexes u diff.update_num pods 0)) target

abbrev update_all : Update → String → List Pod → Written → Option (List ℕ) → Option (Written × Bool)
update_all u target pods w none = none
update_all u target pods w (some is) = update_pods_at u target pods is w

-- `Update`. The numbers count a pod as new by its hash label alone.
unfoldable pub update : Update → List Pod → Written → Option (Written × Bool)
unfolding refresh_pods wait_update_indexes update_pods_at
update u pods w =
    let r = refresh_pods u.api u.in_place u.key u.cs.lifecycle u.update_revision pods w false in
    let diff =
      calculate_diffs_with_expectation u.env u.cs pods u.current_revision u.update_revision
        (λ p. equal_to_revision_hash p u.update_revision) in
    let target = if ltb_ℤ diff.update_num (pos 0) then u.current_revision else u.update_revision in
    if r.failed
    then some (r.written, true)
    else if r.modified || u.cs.update_strategy.paused
    then some (r.written, false)
    else if eqb_ℤ diff.update_num (pos 0)
    then some (r.written, false)
    else update_all u target pods r.written (update_indexes u diff target pods)
