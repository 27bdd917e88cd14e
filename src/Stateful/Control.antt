-- ===== src/Stateful/Control.antt =====
-- `updateStatefulSet` of pkg/controller/statefulset/stateful_set_control.go, composed of its parts,
-- and `performUpdate` and `truncateHistory` around it.
pub mod Monotonic
mod Examples
use kruise.Prelude.{
  ℕ, zero, suc, ◌+◌, ◌-◌, String, str_eq, Bool, true, false, ◌&&◌, ◌||◌, not, Option, none, some,
  List, [], ◌∷◌, ◌++◌, if◌then◌else◌, length, map,
}
use kruise.Prelude.Int.{ℤ, pos, ltb_ℤ, eqb_ℤ}
use kruise.Prelude.Assoc.{Names, lookup}
use kruise.Util.Pods.{controller_revision_hash_key}
use kruise.Expectations.Update
use kruise.Expectations.Update.{observe_updated}
use kruise.Stateful.Ordinals.{get_stateful_set_replicas_range}
use kruise.Stateful.Types.{Pod, Status, StatefulSet, World}
use kruise.Stateful.Pass.{Pass, Run}
use kruise.Stateful.History.{
  History, ControllerRevision, Revisions, Truncation, ends, panics, get_stateful_set_revisions,
  truncate_history,
}
use kruise.Stateful.Tally.{Tally, fresh_status, tally, first_unhealthy, lowest_unhealthy}
use kruise.Stateful.Replicas.{Looped, over, through, visit_replicas}
use kruise.Stateful.Condemned.{reverse_onto, match_condemned_claims, terminate_condemned}
use kruise.Stateful.InPlace.{object_of}
use kruise.Stateful.Rolling.{rolling_update_stateful_set_pods}

-- The number to which `scaleMaxUnavailable` points, at least 1; the outer `none` is an error.
abbrev read_budget : Option ℤ → Option (Option ℤ)
read_budget none = none
read_budget (some n) = some (some (if ltb_ℤ n (pos 1) then pos 1 else n))

unfoldable pub scale_max_unavailable : Pass → Option (Option ℤ)
scale_max_unavailable p = elim p.set.scale_max_unavailable [
  | none ↦ some none
  | some v ↦ read_budget (p.world.get_value_from_int_or_percent v p.set.replicas false)
]

abbrev max_int32 : ℤ
max_int32 = pos 2147483647

-- Whether the update goes on after the pods are scaled.
abbrev then_update : Pass → List Pod → Looped → Option (Run × Bool)
then_update p pods (over error r) = some (r, error)
then_update p pods (through r) =
    if p.set.is_rolling_update then rolling_update_stateful_set_pods p pods r else some (r, false)

abbrev pub then_terminate : Pass → List Pod → List (Option Pod) → Looped → Looped
then_terminate p condemned replicas (over error r) = over error r
then_terminate p condemned replicas (through r) =
    terminate_condemned p (first_unhealthy 0 condemned (lowest_unhealthy replicas max_int32) none)
      (reverse_onto condemned []) (length condemned - 1) r

abbrev pub then_claims : Pass → List Pod → Looped → Looped
then_claims p condemned (over error r) = over error r
then_claims p condemned (through r) = match_condemned_claims p condemned r

-- What scales: the replicas in their order, and then the condemned pods against it. Which condemned
-- pod may go unhealthy is settled before.
unfoldable pub scale_pods : Pass → Tally → Run → Looped
unfolding visit_replicas match_condemned_claims first_unhealthy lowest_unhealthy terminate_condemned
scale_pods p t r =
    then_terminate p t.condemned t.replicas
      (then_claims p t.condemned (visit_replicas p 0 t.replicas r))

-- `updateStatefulSet`, on a run that holds the stores and what was sent before: what is returned, and
-- whether with an error. The outer `none` is a panic.
abbrev with_range : Pass → List Pod → String → ℤ → Run → Option ℕ → Option (Run × Bool)
with_range p pods selector collision_count r none = none
with_range p pods selector collision_count r (some replica_count) =
    let status = fresh_status p selector collision_count in
    let t = tally p replica_count pods status in
    elim (scale_max_unavailable p) [
      | none ↦ some (record r { status = status }, true)
      | some budget ↦
          let r' = record r { status = t.status; replicas = t.replicas; budget = budget } in
          if p.set.deleting then some (r', false) else then_update p pods (scale_pods p t r')
    ]

unfoldable pub update_stateful_set : Pass → List Pod → String → ℤ → Run → Option (Run × Bool)
unfolding scale_max_unavailable tally scale_pods
update_stateful_set p pods selector collision_count r =
    with_range p pods selector collision_count r
      (get_stateful_set_replicas_range p.set.replicas p.set.reserve_ordinals)

-- `completeRollingUpdate`.
unfoldable pub complete_rolling_update : StatefulSet → Status → Status
complete_rolling_update set status =
    if set.is_rolling_update
      && (eqb_ℤ status.updated_replicas status.replicas
          && eqb_ℤ status.ready_replicas status.replicas)
    then record status {
      current_replicas = status.updated_replicas;
      current_revision = status.update_revision;
    }
    else status

-- `inconsistentStatus`.
unfoldable pub inconsistent_status : StatefulSet → Status → Bool
inconsistent_status set status =
    let old = set.status in
    ltb_ℤ old.observed_generation status.observed_generation
    || (not (eqb_ℤ status.replicas old.replicas)
        || (not (eqb_ℤ status.current_replicas old.current_replicas)
            || (not (eqb_ℤ status.ready_replicas old.ready_replicas)
                || (not (eqb_ℤ status.available_replicas old.available_replicas)
                    || (not (eqb_ℤ status.updated_replicas old.updated_replicas)
                        || (not (str_eq status.current_revision old.current_revision)
                            || (not (str_eq status.update_revision old.update_revision)
                                || not (str_eq status.label_selector old.label_selector))))))))

-- `updateStatefulSetStatus`: the status that is written, if any.
unfoldable pub update_stateful_set_status : StatefulSet → Status → Option Status
unfolding complete_rolling_update inconsistent_status
update_stateful_set_status set status =
    let completed = complete_rolling_update set status in
    if inconsistent_status set completed then some completed else none

-- The adapter of the update expectations: the label is the revision.
abbrev pub same_revision : String → Update.Object → String → Bool
same_revision key obj hash =
    str_eq (elim (lookup controller_revision_hash_key obj.labels) [ none ↦ "" | some v ↦ v ]) hash

abbrev pub observe_pods : Pass → List Pod → Update.Cache → Update.Cache
observe_pods p [] cache = cache
observe_pods p (pod ∷ pods) cache =
    observe_pods p pods
      (observe_updated same_revision cache p.key p.update_revision (object_of p pod))

-- What a pass is given besides: the history, the label selector, if it is valid, whether a revision
-- can be applied to the set, and whether the API server takes a status or a deletion of a revision.
pub record Control : Type 0 where
  pub history : History
  pub selector : Option String
  pub applies : ControllerRevision → Bool
  pub accepts_status : Status → Bool
  pub accepts_truncation : Names → String → Bool

-- The end of a pass: the run, if it came that far, the status that was written, if any, the revisions
-- that were deleted, and whether there was an error.
pub record Performed : Type 0 where
  pub run : Run
  pub written : Option Status
  pub truncated : Names
  pub failed : Bool

abbrev pass_of : World → StatefulSet → String → List ControllerRevision → Revisions → Pass
pass_of world set key revisions found = record {
  world = world;
  set = set;
  key = key;
  current_revision = found.current.name;
  update_revision = found.update.name;
  revisions = map (λ (r : ControllerRevision). r.name) revisions;
}

-- A selector or a revision that cannot be read ends the pass with the status of the set.
abbrev read_set : Control → Pass → Revisions → List Pod → Run → Option String → Option (Run × Bool)
read_set c p found pods r none = some (record r { status = p.set.status }, true)
read_set c p found pods r (some selector) =
    if c.applies found.current && c.applies found.update
    then update_stateful_set p pods selector found.collision_count r
    else some (record r { status = p.set.status }, true)

abbrev write_status : Control → StatefulSet → Run → Bool → Option Status → Performed
write_status c set r error none = record { run = r; written = none; truncated = []; failed = error }
write_status c set r error (some status) =
    let ok = c.accepts_status status in
    record {
      run = r;
      written = if ok then some status else none;
      truncated = [];
      failed = error || not ok;
    }

abbrev performed : Control → StatefulSet → Option (Run × Bool) → Option Performed
performed c set none = none
performed c set (some (r, error)) =
    some (write_status c set r error (update_stateful_set_status set r.status))

-- `performUpdate`, once the revisions are found.
unfoldable pub perform_update : Control → Pass → Revisions → List Pod → Run → Option Performed
unfolding update_stateful_set update_stateful_set_status
perform_update c p found pods r = performed c p.set (
    read_set c p found pods (record r { expectations = observe_pods p pods r.expectations })
      c.selector)

-- A panic of the truncation is one of the pass.
abbrev with_truncation : Performed → Truncation → Option Performed
with_truncation d (panics names) = none
with_truncation d (ends names error) =
    some (record d { truncated = names; failed = d.failed || error })

abbrev and_truncate :
    Control
    → StatefulSet
    → List Pod
    → List ControllerRevision
    → Revisions
    → Option Performed
    → Option Performed
and_truncate c set pods revisions found none = none
and_truncate c set pods revisions found (some d) = with_truncation d (
    truncate_history c.accepts_truncation set pods revisions (some found.current.name)
      (some found.update.name))

-- `UpdateStatefulSet`, on the sorted revisions. The outer `none` is a panic.
unfoldable pub run_pass :
    Control
    → World
    → StatefulSet
    → String
    → List ControllerRevision
    → List Pod
    → Run
    → Option Performed
unfolding perform_update truncate_history get_stateful_set_revisions
run_pass c world set key revisions pods r =
    elim (get_stateful_set_revisions c.history set revisions) [
      | none ↦
          with_truncation (record { run = r; written = none; truncated = []; failed = true })
            (truncate_history c.accepts_truncation set pods revisions none none)
      | some found ↦
          and_truncate c set pods revisions found
            (perform_update c (pass_of world set key revisions found) found pods r)
    ]
