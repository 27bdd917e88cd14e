-- ===== src/CloneSet/Writes.antt =====
-- What the CloneSet controller writes: pkg/util/lifecycle/lifecycle_utils.go, and the pattern of
-- pkg/controller/cloneset/sync/cloneset_scale.go by which each creation and deletion is announced to
-- the expectations before it is sent, and taken back if it is refused.
pub mod Ledger
use kruise.Prelude.{
  ◌≡◌, ◌⊎◌, inl, inr, refl, String, str_eq, Bool, true, false, Option, none, some, List, [], ◌∷◌,
  if◌then◌else◌,
}
use kruise.Prelude.Assoc.{Assoc}
use kruise.Util.LifecycleState
use kruise.Util.Pods.{Pod, LifecycleHook, get_pod_lifecycle_state}
use kruise.Util.Requeue.{DurationStore}
use kruise.Expectations.ResourceVersion
use kruise.Expectations.Scale
use kruise.Expectations.Scale.{ScaleAction, expect_scale, observe_scale}

-- A creation or a deletion that was sent, and whether the API server accepted it.
pub record Attempt : Type 0 where
  pub action : ScaleAction
  pub name : String
  pub accepted : Bool

-- A change of a pod that the API server accepted: a lifecycle state, an update in place, the mark by
-- which it will be deleted, or its hash label.
pub data Change : Type 0 where
  moves : String → String → Change
  updates : String → Change
  marks : String → Change
  fixes : String → Change

-- What a sync changes: the stores of expectations, the requeue durations, and what was sent to the
-- API server, the last attempt and the last change first.
pub record Written : Type 0 where
  pub scale : Scale.Cache
  pub versions : ResourceVersion.Store
  pub requeue : DurationStore
  pub log : List Attempt
  pub changes : List Change

-- The answers of the API server, which may depend on all that was sent before. `none` is an error.
pub record Api : Type 0 where
  pub accepts_pod : List Attempt → ScaleAction → String → Bool
  pub accepts_pvc : List Attempt → ScaleAction → String → Bool
  -- A patch of the lifecycle state, with the pod as it is then stored.
  pub patch_state : Pod → String → Option ResourceVersion.Object
  pub add_not_ready_key : Pod → String → Bool
  pub remove_not_ready_key : Pod → String → Bool

-- One attempt, with its answer.
unfoldable pub attempt : String → ScaleAction → String → Bool → Written → Written
attempt key action name ok w =
    let expected = expect_scale w.scale key action name in
    record w {
      scale = if ok then expected else observe_scale expected key action name;
      log = record { action = action; name = name; accepted = ok } ∷ w.log;
    }

-- `executePodNotReadyPolicy`: whether it succeeds.
unfoldable pub execute_pod_not_ready_policy : Api → Pod → String → Bool
execute_pod_not_ready_policy api pod state =
    if str_eq state LifecycleState.preparing_delete
    then api.add_not_ready_key pod "preDeleteHook"
    else if str_eq state LifecycleState.preparing_update
    then api.add_not_ready_key pod "preUpdateHook"
    else if str_eq state LifecycleState.updated
    then api.remove_not_ready_key pod "preUpdateHook"
    else true

-- The result of an update of the lifecycle: an error, no change, or the pod as it is now stored.
pub data LifecycleUpdate : Type 0 where
  failed : LifecycleUpdate
  unchanged : LifecycleUpdate
  updated : ResourceVersion.Object → LifecycleUpdate

abbrev patched : Option ResourceVersion.Object → LifecycleUpdate
patched none = failed
patched (some got) = updated got

-- `UpdatePodLifecycle`.
unfoldable pub update_pod_lifecycle : Api → Pod → String → Bool → LifecycleUpdate
unfolding execute_pod_not_ready_policy get_pod_lifecycle_state
update_pod_lifecycle api pod state mark_pod_not_ready =
    if (if mark_pod_not_ready then execute_pod_not_ready_policy api pod state else true)
    then if str_eq (get_pod_lifecycle_state pod) state
      then unchanged
      else patched (api.patch_state pod state)
    else failed

-- `UpdatePodLifecycleWithHandler`: the patch also sets the labels and finalizers of the hook.
unfoldable pub update_pod_lifecycle_with_handler :
    Api
    → (Pod → String → LifecycleHook → Option ResourceVersion.Object)
    → Pod
    → String
    → Option LifecycleHook
    → LifecycleUpdate
unfolding execute_pod_not_ready_policy get_pod_lifecycle_state
update_pod_lifecycle_with_handler api patch_with_hook pod state none = unchanged
update_pod_lifecycle_with_handler api patch_with_hook pod state (some hook) =
    if (if hook.mark_pod_not_ready then execute_pod_not_ready_policy api pod state else true)
    then if str_eq (get_pod_lifecycle_state pod) state
      then unchanged
      else patched (patch_with_hook pod state hook)
    else failed

-- A change is noted, and the version that it led to is expected.
abbrev pub note : Change → ResourceVersion.Object → Written → Written
note change got w = record w {
  versions = ResourceVersion.expect w.versions got;
  changes = change ∷ w.changes;
}

pub LifecycleUpdate-cases :
    (u : LifecycleUpdate)
    → (u ≡ failed) ⊎ ((u ≡ unchanged) ⊎ ((got : ResourceVersion.Object) × (u ≡ updated got)))
LifecycleUpdate-cases failed = inl refl
LifecycleUpdate-cases unchanged = inr (inl refl)
LifecycleUpdate-cases (updated got) = inr (inr (got, refl))
