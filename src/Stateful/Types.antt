-- ===== src/Stateful/Types.antt =====
-- What pkg/controller/statefulset reads of a StatefulSet (apis/apps/v1beta1/statefulset_types.go) and
-- of its pods, and what answers it from outside.
use kruise.Prelude.{
  ℕ, String, str_eq, Bool, true, false, ◌&&◌, not, Option, none, some, List, if◌then◌else◌,
}
use kruise.Prelude.Int.{ℤ, pos, ◌+ℤ◌, ◌-ℤ◌, eqb_ℤ, ltb_ℤ}
use kruise.Util.LifecycleState
use kruise.Util.Pods
use kruise.Expectations.ResourceVersion
use kruise.Util.Pods.{
  Lifecycle, LifecycleHook, label, controller_revision_hash_key, get_pod_lifecycle_state,
}
use kruise.Util.Tools.{IntOrString}
use kruise.Util.Priority.{PriorityStrategy}
use kruise.Stateful.Names.{Identity, get_ordinal}
use kruise.CloneSet.Writes.{Api}

-- A pod has its name twice, as a text and as code points.
pub record Pod : Type 0 where
  pub meta : Pods.Pod
  pub identity : Identity
  pub phase : String
  -- Whether the deletion timestamp is set.
  pub terminating : Bool
  -- The condition PodReady.
  pub ready : Bool
  -- Its last transition, in nanoseconds; `none` is the zero time.
  pub ready_since : Option ℤ

abbrev pub ordinal : Pod → ℤ
ordinal pod = get_ordinal pod.identity.name

abbrev pub get_pod_revision : Pod → String
get_pod_revision pod = label controller_revision_hash_key pod.meta

unfoldable pub is_running_and_ready : Pod → Bool
is_running_and_ready pod = str_eq pod.phase "Running" && pod.ready

unfoldable pub is_created : Pod → Bool
is_created pod = not (str_eq pod.phase "")

unfoldable pub is_failed : Pod → Bool
is_failed pod = str_eq pod.phase "Failed"

unfoldable pub is_healthy : Pod → Bool
unfolding is_running_and_ready get_pod_lifecycle_state
is_healthy pod =
    let state = get_pod_lifecycle_state pod.meta in
    if not (str_eq state "") && not (str_eq state LifecycleState.normal)
    then false
    else is_running_and_ready pod && not pod.terminating

abbrev ready_for : ℤ → ℤ → Option ℤ → Bool × ℤ
ready_for now min none = (false, min)
ready_for now min (some t) =
    let wait_time = (t +ℤ min) -ℤ now in
    if ltb_ℤ (pos 0) wait_time then (false, wait_time) else (true, pos 0)

-- `now` is the clock; `min_ready` is in nanoseconds.
unfoldable pub is_running_and_available : ℤ → ℤ → Pod → Bool × ℤ
unfolding is_running_and_ready
is_running_and_available now min_ready pod =
    if not (is_running_and_ready pod)
    then (false, pos 0)
    else if eqb_ℤ min_ready (pos 0)
    then (true, pos 0)
    else ready_for now min_ready pod.ready_since

pub data PodUpdatePolicy : Type 0 where
  recreate : PodUpdatePolicy
  in_place_if_possible : PodUpdatePolicy
  in_place_only : PodUpdatePolicy

-- The partition is filled in by the webhooks; the time of readiness is in nanoseconds. An unordered
-- update may have a priority.
pub record RollingUpdate : Type 0 where
  pub partition : ℤ
  pub max_unavailable : Option IntOrString
  pub pod_update_policy : PodUpdatePolicy
  pub paused : Bool
  pub min_ready_seconds : Option ℤ
  pub unordered_update : Option (Option PriorityStrategy)

-- The counters and names of the status, and the condition that a pass sets.
pub record Status : Type 0 where
  pub observed_generation : ℤ
  pub current_revision : String
  pub update_revision : String
  pub label_selector : String
  pub collision_count : ℤ
  pub replicas : ℤ
  pub ready_replicas : ℤ
  pub available_replicas : ℤ
  pub current_replicas : ℤ
  pub updated_replicas : ℤ
  pub updated_ready_replicas : ℤ
  pub updated_available_replicas : ℤ
  pub failed : Option String

pub record StatefulSet : Type 0 where
  pub name : List ℕ
  pub namespace : List ℕ
  pub generation : ℤ
  pub deleting : Bool
  pub replicas : ℤ
  pub reserve_ordinals : List ℤ
  -- The policy Parallel, against OrderedReady.
  pub parallel : Bool
  pub scale_max_unavailable : Option IntOrString
  -- The type RollingUpdate, against OnDelete, and its parameters.
  pub is_rolling_update : Bool
  pub rolling_update : Option RollingUpdate
  pub lifecycle : Option Lifecycle
  -- An int32, which nothing keeps from being negative.
  pub revision_history_limit : ℤ
  pub status : Status

-- What was sent to the API server and accepted.
pub data Sent : Type 0 where
  creates : Pod → Sent
  deletes : Pod → Sent
  -- A patch of the lifecycle state.
  moves : Pod → String → Sent
  updates : Pod → Sent
  -- The owners of the claims of a pod.
  claims : Pod → Sent
  in_place : Pod → Sent

-- What `inplaceControl.Update` answers, with the time after which to look again.
pub data InPlaceUpdate : Type 0 where
  not_in_place : InPlaceUpdate
  update_error : ℤ → InPlaceUpdate
  stored : ℤ → InPlaceUpdate

-- The clock, the feature gates, the API server, whose answers may depend on what was sent before,
-- and what is computed elsewhere; `none` is an error.
pub record World : Type 0 where
  pub now : ℕ
  pub auto_delete_pvc : Bool
  pub preparing_update_as_update : Bool
  pub get_value_from_int_or_percent : IntOrString → ℤ → Bool → Option ℤ
  -- The text of code points.
  pub text : List ℕ → String
  -- A pod of the template at a revision.
  pub get_pod_from_template : String → Pods.Pod
  pub sort_ascending_ordinal : List Pod → List Pod
  pub sort_by_priority : PriorityStrategy → List (Option Pod) → List ℕ → List ℕ
  pub api : Api
  pub patch_with_hook : Pods.Pod → String → LifecycleHook → Option ResourceVersion.Object
  pub accepts_creation : List Sent → Pod → Bool
  pub accepts_deletion : List Sent → Pod → Bool
  pub accepts_update : List Sent → Pod → Bool
  pub accepts_claims : List Sent → Pod → Bool
  pub pod_claim_is_stale : Pod → Option Bool
  pub claims_match_retention_policy : Pod → Option Bool
  pub storage_matches : Pod → Bool
  -- pkg/util/inplaceupdate.
  pub refresh : List Sent → Pod → Option ℤ
  pub is_update_completed : Pod → Bool
  pub can_update_in_place : Option String → String → Bool
  pub update_in_place : List Sent → Pod → InPlaceUpdate
