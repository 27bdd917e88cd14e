-- ===== src/CloneSet/Scaling.antt =====
-- `Scale` of pkg/controller/cloneset/sync/cloneset_scale.go: one sync of the number of pods.
pub mod OneWay
pub mod Cancelled
mod Examples
use kruise.Prelude.{
  ℕ, ◌+◌, ◌-◌, String, Bool, true, false, ◌||◌, not, Option, none, some, List, [], ◌∷◌,
  if◌then◌else◌, ltb, length, keep,
}
use kruise.Prelude.Int.{ℤ, pos, ◌+ℤ◌, ◌-ℤ◌, leb_ℤ, ltb_ℤ, pos_part}
use kruise.Prelude.Assoc.{Names, add}
use kruise.Util.LifecycleState
use kruise.Expectations.ResourceVersion
use kruise.Util.Pods.{Pod, is_lifecycle_mark_pod_not_ready, is_pod_update, equal_to_revision_hash}
use kruise.CloneSet.Types.{CloneSet, Env, is_pod_specified_delete}
use kruise.CloneSet.Diff.{ExpectationDiffs, calculate_diffs_with_expectation}
use kruise.CloneSet.Writes.{
  Api, Written, LifecycleUpdate, failed, unchanged, updated, update_pod_lifecycle, note, moves,
}
use kruise.CloneSet.Deletion.{
  Pvc, Outcome, delete_pods, Planned, get_planned_deleted_pods, diff_pods, within_ready_limit,
  ready_limit_left, choose_pods_to_delete,
}
use kruise.CloneSet.Creation.{create_pods}
use kruise.CloneSet.NewPods.{
  Ids, Template, get_or_gen_available_ids, new_versioned_pods, claim_names,
}

-- The loop of `managePreparingDelete`: `diff` pods are missing.
unfoldable pub cancel_from : Api → CloneSet → List Pod → ℤ → Written → Bool → Outcome
cancel_from api cs [] diff w modified = record { written = w; modified = modified; failed = false }
cancel_from api cs (pod ∷ pods) diff w modified =
    let skipped = cancel_from api cs pods diff w modified in
    let kept = cancel_from api cs pods (diff -ℤ pos 1) w modified in
    let moved = λ (got : ResourceVersion.Object).
      cancel_from api cs pods (diff -ℤ pos 1)
        (note (moves pod.name LifecycleState.preparing_normal) got w) true in
    if leb_ℤ diff (pos 0)
    then record { written = w; modified = modified; failed = false }
    else if is_pod_specified_delete cs pod
    then skipped
    else elim (update_pod_lifecycle api pod LifecycleState.preparing_normal false) [
      | failed ↦ record { written = w; modified = modified; failed = true }
      | unchanged ↦ kept
      | updated got ↦ moved got
    ]

unfoldable pub manage_preparing_delete :
    Api → CloneSet → List Pod → List Pod → ℕ → Written → Outcome
unfolding cancel_from
manage_preparing_delete api cs pods in_pre_delete num_to_delete w =
    if is_lifecycle_mark_pod_not_ready cs.lifecycle
    then record { written = w; modified = false; failed = false }
    else cancel_from api cs in_pre_delete (cs.replicas -ℤ pos (length pods) +ℤ pos num_to_delete) w
        false

-- The next step is taken if the step before it changed nothing and did not fail.
abbrev pub and_then : Outcome → (Written → Outcome) → Outcome
and_then o next = if o.failed || o.modified then o else next o.written

abbrev pub nothing : Written → Outcome
nothing w = record { written = w; modified = false; failed = false }

-- `GroupUpdateAndNotUpdatePods`, one group at a time.
abbrev pub update_pods : Env → String → List Pod → List Pod
update_pods env revision pods =
    keep (λ p. is_pod_update env.preparing_update_as_update p revision) pods

abbrev pub not_update_pods : Env → String → List Pod → List Pod
not_update_pods env revision pods =
    keep (λ p. not (is_pod_update env.preparing_update_as_update p revision)) pods

abbrev pvc_names : List Pvc → Names → Names
pvc_names [] names = names
pvc_names (pvc ∷ pvcs) names = pvc_names pvcs (add pvc.name names)

-- What a sync is given: the API server, the environment, and the specification at both revisions.
-- `rand` are the texts that are drawn, `sorted` the order of a set of names, `rank` the order in
-- which pods are deleted.
pub record Sync : Type 0 where
  pub api : Api
  pub env : Env
  pub key : String
  pub cs : CloneSet
  pub current_cs : Template
  pub update_cs : Template
  pub current_revision : String
  pub update_revision : String
  pub short_hash : Bool
  pub rand : ℕ → String
  pub fuel : ℕ
  pub sorted : Names → List String
  pub rank : List Pod → List Pod

abbrev pub diffs : Sync → List Pod → ExpectationDiffs
diffs s pods =
    calculate_diffs_with_expectation s.env s.cs pods s.current_revision s.update_revision
      (λ p. is_pod_update s.env.preparing_update_as_update p s.update_revision)

-- The specification of a pod's revision, by which its claims are made.
abbrev template_of : Sync → Pod → Template
template_of s pod =
    if equal_to_revision_hash pod s.current_revision then s.current_cs else s.update_cs

abbrev pub pods_to_create : Sync → ExpectationDiffs → Ids → List Pod
pods_to_create s diff ids =
    new_versioned_pods s.short_hash s.current_cs s.update_cs s.current_revision s.update_revision
      diff.scale_up_limit diff.scale_up_num_old_revision (s.sorted ids.chosen)

-- Step 3, for the ids that were chosen. `none` stands for a drawing of ids that does not end.
unfoldable pub scale_out :
    Sync → ExpectationDiffs → List Pvc → Written → Option Ids → Option Outcome
scale_out s diff pvcs w none = none
scale_out s diff pvcs w (some ids) =
    let r =
      create_pods s.api s.key (λ p. claim_names (template_of s p) p) (pvc_names pvcs [])
        (pods_to_create s diff ids) w in
    some (record { written = r.written; modified = r.modified; failed = r.failed })

-- The pods that are specified to be deleted, and not on the way already.
abbrev pub to_delete : Sync → List Pod → List Pod
to_delete s pods =
    let planned = get_planned_deleted_pods s.cs pods in
    diff_pods planned.specified planned.in_pre_delete

-- Steps 4 and 5. Where there is no pod to delete, `deletePods` changes nothing.
abbrev pub delete_in_pre_delete : Sync → List Pod → List Pvc → Written → Outcome
delete_in_pre_delete s pods pvcs w =
    delete_pods s.api s.key s.cs.lifecycle (get_planned_deleted_pods s.cs pods).in_pre_delete pvcs w

abbrev pub delete_specified : Sync → ExpectationDiffs → List Pod → List Pvc → Written → Outcome
delete_specified s diff pods pvcs w =
    delete_pods s.api s.key s.cs.lifecycle
      (within_ready_limit s.env (pos_part diff.delete_ready_limit) (to_delete s pods)) pvcs w

-- Step 6.
abbrev pub delete_surplus : Sync → ExpectationDiffs → List Pod → List Pvc → Written → Outcome
delete_surplus s diff pods pvcs w =
    let limit = ready_limit_left s.env (pos_part diff.delete_ready_limit) (to_delete s pods) in
    let chosen =
      choose_pods_to_delete s.rank diff.scale_down_num diff.scale_down_num_old_revision
        (not_update_pods s.env s.update_revision pods) (update_pods s.env s.update_revision pods) in
    if ltb_ℤ (pos 0) diff.scale_down_num
    then if ltb 0 (get_planned_deleted_pods s.cs pods).num_to_delete
      then nothing w
      else delete_pods s.api s.key s.cs.lifecycle (within_ready_limit s.env limit chosen) pvcs w
    else nothing w

unfoldable pub scale_in : Sync → ExpectationDiffs → List Pod → List Pvc → Written → Outcome
scale_in s diff pods pvcs w =
    and_then (delete_in_pre_delete s pods pvcs w)
      (λ w'. and_then (delete_specified s diff pods pvcs w') (delete_surplus s diff pods pvcs))

-- `Scale`, after `drawn` texts have been drawn.
unfoldable pub scale : Sync → List Pod → List Pvc → ℕ → Written → Option Outcome
scale s pods pvcs drawn w =
    let planned = get_planned_deleted_pods s.cs pods in
    let managed =
      manage_preparing_delete s.api s.cs pods planned.in_pre_delete planned.num_to_delete w in
    let diff = diffs s pods in
    if managed.failed || managed.modified
    then some managed
    else if ltb_ℤ (pos 0) diff.scale_up_num
    then scale_out s diff pvcs managed.written
        (get_or_gen_available_ids s.rand s.fuel diff.scale_up_limit pods pvcs drawn)
    else some (scale_in s diff pods pvcs managed.written)
