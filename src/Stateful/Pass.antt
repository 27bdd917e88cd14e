-- ===== src/Stateful/Pass.antt =====
-- What the loops of pkg/controller/statefulset/stateful_set_control.go share: the state of one pass
-- over a StatefulSet, its new pods and the deletion of a pod.
pub mod Log
use kruise.Prelude.{
  ℕ, zero, suc, ◌+◌, String, str_eq, Bool, true, false, ◌&&◌, ◌||◌, not, Option, none, some, List,
  [], ◌∷◌, if◌then◌else◌, ◌==◌,
}
use kruise.Prelude.Int.{ℤ, pos, negsuc, ◌+ℤ◌, ◌-ℤ◌, ltb_ℤ, leb_ℤ}
use kruise.Prelude.Assoc.{insert}
use kruise.Util.LifecycleState
use kruise.Util.Pods.{
  Lifecycle, LifecycleHook, is_pod_hooked, is_pod_update, set_pod_lifecycle,
  controller_revision_hash_key,
}
use kruise.Util.Requeue.{DurationStore, push}
use kruise.Expectations.Update
use kruise.Stateful.Names.{Identity, get_pod_name}
use kruise.Stateful.Types.{
  Pod, RollingUpdate, Status, StatefulSet, Sent, deletes, moves, World, get_pod_revision,
}
use kruise.CloneSet.Writes.{LifecycleUpdate, failed, unchanged, updated, update_pod_lifecycle}

-- What does not change in a pass.
pub record Pass : Type 0 where
  pub world : World
  pub set : StatefulSet
  pub key : String
  pub current_revision : String
  pub update_revision : String
  -- The names of the revisions of the history.
  pub revisions : List String

abbrev pub monotonic : Pass → Bool
monotonic p = not p.set.parallel

abbrev min_ready : Option RollingUpdate → ℤ
min_ready none = pos 0
min_ready (some r) = elim r.min_ready_seconds [ none ↦ pos 0 | some t ↦ t ]

unfoldable pub get_min_ready_seconds : StatefulSet → ℤ
get_min_ready_seconds set = min_ready set.rolling_update

-- What a pass changes. `budget` is the number to which `scaleMaxUnavailable` points.
pub record Run : Type 0 where
  pub status : Status
  pub replicas : List (Option Pod)
  pub budget : Option ℤ
  pub requeue : DurationStore
  pub expectations : Update.Cache
  -- The last first.
  pub log : List Sent

-- A pass is over, with an error or without, or it goes on.
pub data Step : Type 0 where
  returns : Bool → Run → Step
  goes_on : Run → Step

abbrev pub put : List (Option Pod) → ℕ → Pod → List (Option Pod)
put [] i pod = []
put (r ∷ rs) zero pod = some pod ∷ rs
put (r ∷ rs) (suc i) pod = r ∷ put rs i pod

abbrev pub push_after : String → ℤ → Run → Run
push_after key delay r = record r {
  requeue = if ltb_ℤ (pos 0) delay then push r.requeue key delay else r.requeue;
}

-- `decreaseAndCheckMaxUnavailable`: what is left, and whether that is all.
unfoldable pub decrease_and_check_max_unavailable : Option ℤ → Option ℤ × Bool
decrease_and_check_max_unavailable none = (none, false)
decrease_and_check_max_unavailable (some n) = let val = n -ℤ pos 1 in (some val, leb_ℤ val (pos 0))

abbrev not_updated_among : Bool → String → ℕ → ℕ → List (Option Pod) → ℤ
not_updated_among gate update_revision ordinal i [] = pos 0
not_updated_among gate update_revision ordinal i (none ∷ rs) =
    not_updated_among gate update_revision ordinal (i + 1) rs
not_updated_among gate update_revision ordinal i (some pod ∷ rs) =
    (if not (i == ordinal) && not (is_pod_update gate pod.meta update_revision)
      then pos 1
      else pos 0)
    +ℤ not_updated_among gate update_revision ordinal (i + 1) rs

abbrev current_needed : Pass → ℕ → List (Option Pod) → Option RollingUpdate → Bool
current_needed p ordinal replicas none = ltb_ℤ (pos ordinal) p.set.status.current_replicas
current_needed p ordinal replicas (some r) = elim r.unordered_update [
  | none ↦ ltb_ℤ (pos ordinal) r.partition
  | some _ ↦
      ltb_ℤ
        (not_updated_among p.world.preparing_update_as_update p.update_revision ordinal 0 replicas)
        r.partition
]

-- `isCurrentRevisionNeeded`.
unfoldable pub is_current_revision_needed : Pass → ℕ → List (Option Pod) → Bool
is_current_revision_needed p ordinal replicas =
    p.set.is_rolling_update && current_needed p ordinal replicas p.set.rolling_update

abbrev pub pod_name_key : String
pod_name_key = "statefulset.kubernetes.io/pod-name"

-- `newStatefulSetPod` and `setPodRevision`.
unfoldable pub new_stateful_set_pod : Pass → String → ℕ → Pod
unfolding get_pod_name
new_stateful_set_pod p revision i =
    let pod_name = get_pod_name p.set.name i in
    let name = p.world.text pod_name in
    let template = p.world.get_pod_from_template revision in
    record {
      meta = record template {
        name = name;
        labels =
            insert controller_revision_hash_key revision (insert pod_name_key name template.labels);
      };
      identity = record { name = pod_name; namespace = p.set.namespace; pod_name_label = pod_name };
      phase = "";
      terminating = false;
      ready = false;
      ready_since = none;
    }

unfoldable pub new_versioned_stateful_set_pod : Pass → ℕ → List (Option Pod) → Pod
unfolding is_current_revision_needed new_stateful_set_pod
new_versioned_stateful_set_pod p i replicas =
    if is_current_revision_needed p i replicas
    then new_stateful_set_pod p p.current_revision i
    else new_stateful_set_pod p p.update_revision i

abbrev pub pre_delete_hook : Option Lifecycle → Option LifecycleHook
pre_delete_hook none = none
pre_delete_hook (some l) = l.pre_delete

abbrev pub marks_not_ready : Option LifecycleHook → Bool
marks_not_ready none = false
marks_not_ready (some h) = h.mark_pod_not_ready

abbrev prepared : Pod → List Sent → LifecycleUpdate → Option (Bool × List Sent)
prepared pod log failed = none
prepared pod log unchanged = some (false, log)
prepared pod log (updated got) = some (true, moves pod LifecycleState.preparing_delete ∷ log)

-- `deletePod`: whether it changed the pod, with what was sent; `none` is an error.
unfoldable pub delete_pod : Pass → Pod → List Sent → Option (Bool × List Sent)
delete_pod p pod log =
    let hook = pre_delete_hook p.set.lifecycle in
    if is_pod_hooked hook pod.meta
    then prepared pod log (
        update_pod_lifecycle p.world.api pod.meta LifecycleState.preparing_delete
          (marks_not_ready hook))
    else if p.world.accepts_deletion log pod
    then some (true, deletes pod ∷ log)
    else none

abbrev pub one_if : Bool → ℤ
one_if b = if b then pos 1 else pos 0

-- A pod of the revision of `pod` comes, or goes.
abbrev pub counts_up : Pass → Pod → Status → Status
counts_up p pod s = record s {
  current_replicas =
      s.current_replicas +ℤ one_if (str_eq (get_pod_revision pod) p.current_revision);
  updated_replicas = s.updated_replicas +ℤ one_if (str_eq (get_pod_revision pod) p.update_revision);
}

abbrev pub counts_down : Pass → Pod → Status → Status
counts_down p pod s = record s {
  current_replicas =
      s.current_replicas -ℤ one_if (str_eq (get_pod_revision pod) p.current_revision);
  updated_replicas = s.updated_replicas -ℤ one_if (str_eq (get_pod_revision pod) p.update_revision);
}
