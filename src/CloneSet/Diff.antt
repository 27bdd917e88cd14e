-- ===== src/CloneSet/Diff.antt =====
-- `calculateDiffsWithExpectation` of pkg/controller/cloneset/sync/cloneset_sync_utils.go, the
-- numbers of pods to create, delete and update. A Go int is an unbounded integer here: it holds
-- sums of a few int32 values and lengths of slices, which do not reach 64 bits.
pub mod Tally
pub mod Numbers
pub mod Bounds
pub mod Settled
mod Examples
use kruise.Prelude.{
  ℕ, suc, ◌+◌, String, str_eq, Bool, true, false, ◌&&◌, ◌||◌, not, Option, none, some, List, [],
  ◌∷◌, if◌then◌else◌, length, ltb,
}
use kruise.Prelude.Int.{ℤ, pos, ◌+ℤ◌, ◌-ℤ◌, ltb_ℤ, leb_ℤ, eqb_ℤ, min_ℤ, max_ℤ}
use kruise.Util.Tools.{int_abs, is_int_plus_and_minus, calculate_partition_replicas}
use kruise.Util.LifecycleState
use kruise.Util.Pods.{Pod, get_pod_lifecycle_state}
use kruise.CloneSet.Types.{
  CloneSet, Env, value_or_default, default_max_unavailable, max_int32,
  should_scaling_exclude_preparing_delete, is_pod_specified_delete, is_pod_available,
}
use kruise.Util.Tools.{int, IntOrString}

pub record ExpectationDiffs : Type 0 where
  pub scale_up_num : ℤ
  pub scale_up_num_old_revision : ℤ
  pub scale_down_num : ℤ
  pub scale_down_num_old_revision : ℤ
  pub scale_up_limit : ℤ
  pub delete_ready_limit : ℤ
  pub use_surge : ℤ
  pub use_surge_old_revision : ℤ
  pub update_num : ℤ
  pub update_max_unavailable : ℤ

-- The numbers that the specification asks for.
pub record Limits : Type 0 where
  pub replicas : ℤ
  pub partition : ℤ
  pub max_surge : ℤ
  pub max_unavailable : ℤ
  pub scale_max_unavailable : ℤ

abbrev partition_or_zero : Option ℤ → ℤ
partition_or_zero none = pos 0
partition_or_zero (some n) = n

max_surge_of : Env → CloneSet → Option IntOrString → ℤ
max_surge_of env cs none = pos 0
max_surge_of env cs (some s) =
    if cs.update_strategy.paused
    then pos 0
    else env.get_value_from_int_or_percent s cs.replicas true

unfoldable pub limits : Env → CloneSet → Limits
unfolding max_surge_of
limits env cs =
    let max_surge = max_surge_of env cs cs.update_strategy.max_surge in
    record {
      replicas = cs.replicas;
      partition =
          partition_or_zero (
            calculate_partition_replicas env.scale cs.update_strategy.partition (some cs.replicas));
      max_surge = max_surge;
      max_unavailable =
          env.get_value_from_int_or_percent
            (value_or_default cs.update_strategy.max_unavailable default_max_unavailable)
            cs.replicas (eqb_ℤ max_surge (pos 0));
      scale_max_unavailable =
          env.get_value_from_int_or_percent
            (value_or_default cs.scale_strategy.max_unavailable (int max_int32)) cs.replicas true;
    }

-- The pods of one revision.
pub record RevisionCount : Type 0 where
  pub count : ℕ
  pub active : ℕ
  pub unavailable : ℕ
  pub to_delete : ℕ
  pub pre_deleting : ℕ

pub record Counts : Type 0 where
  pub new : RevisionCount
  pub old : RevisionCount

abbrev zero_count : RevisionCount
zero_count = record { count = 0; active = 0; unavailable = 0; to_delete = 0; pre_deleting = 0 }

-- The body of the loop, for the revision that the pod belongs to.
count_pod : Env → CloneSet → Pod → RevisionCount → RevisionCount
unfolding get_pod_lifecycle_state
count_pod env cs p c =
    if str_eq (get_pod_lifecycle_state p) LifecycleState.preparing_delete
    then record c { count = c.count + 1; pre_deleting = c.pre_deleting + 1 }
    else if is_pod_specified_delete cs p
    then record c { count = c.count + 1; active = c.active + 1; to_delete = c.to_delete + 1 }
    else if not (is_pod_available env p cs.min_ready_seconds)
    then record c { count = c.count + 1; active = c.active + 1; unavailable = c.unavailable + 1 }
    else record c { count = c.count + 1; active = c.active + 1 }

count_pods : Env → CloneSet → (Pod → Bool) → List Pod → Counts → Counts
count_pods env cs is_update [] c = c
count_pods env cs is_update (p ∷ ps) c = count_pods env cs is_update ps (
    if is_update p
    then record c { new = count_pod env cs p c.new }
    else record c { old = count_pod env cs p c.old })

unfoldable pub count_all : Env → CloneSet → (Pod → Bool) → List Pod → Counts
unfolding count_pods count_pod
count_all env cs is_update pods =
    count_pods env cs is_update pods (record { new = zero_count; old = zero_count })

abbrev pub total_unavailable : Counts → ℕ
total_unavailable c =
    c.new.pre_deleting + c.old.pre_deleting + c.new.unavailable + c.old.unavailable

abbrev pub total_to_delete : Counts → ℕ
total_to_delete c = c.new.to_delete + c.old.to_delete

-- The surplus of old and of new pods. Without a rollback only the step to the new revision counts.
pub record UpdateDiffs : Type 0 where
  pub old : ℤ
  pub new : ℤ

unfoldable pub update_diffs : Bool → Limits → Counts → UpdateDiffs
update_diffs forward_only l c =
    let old = pos c.old.active -ℤ l.partition in
    let new = pos c.new.active -ℤ (l.replicas -ℤ l.partition) in
    if forward_only
    then record { old = max_ℤ old (pos 0); new = min_ℤ new (pos 0) }
    else record { old = old; new = new }

-- A number of pods above the replicas, and how many of them are of the old revision.
pub record Surge : Type 0 where
  pub use_surge : ℤ
  pub old_revision : ℤ

abbrev no_surge : Surge
no_surge = record { use_surge = pos 0; old_revision = pos 0 }

unfoldable pub scale_surge : Limits → Counts → Surge
scale_surge l c =
    let n = pos (total_to_delete c) in
    let s = min_ℤ (max_ℤ (pos (total_unavailable c) +ℤ n -ℤ l.max_unavailable) (pos 0)) n in
    if ltb 0 (total_to_delete c)
    then record {
      use_surge = s;
      old_revision = if ltb_ℤ (pos c.new.to_delete) s then s -ℤ pos c.new.to_delete else pos 0;
    }
    else no_surge

unfoldable pub update_surge : UpdateDiffs → Surge
update_surge d =
    let a = int_abs d.old in
    let b = int_abs d.new in
    if is_int_plus_and_minus d.old d.new
    then if leb_ℤ a b
      then record { use_surge = a; old_revision = if ltb_ℤ d.old (pos 0) then a else pos 0 }
      else record { use_surge = b; old_revision = if ltb_ℤ (pos 0) d.new then b else pos 0 }
    else no_surge

cap_surge : ℤ → Surge → Surge
cap_surge max_surge s =
    let n = min_ℤ max_surge s.use_surge in
    record { use_surge = n; old_revision = min_ℤ n s.old_revision }

unfoldable pub surge : Limits → Counts → UpdateDiffs → Surge
unfolding cap_surge
surge l c d =
    if ltb_ℤ (pos 0) l.max_surge
    then if leb_ℤ (update_surge d).use_surge (scale_surge l c).use_surge
      then cap_surge l.max_surge (scale_surge l c)
      else cap_surge l.max_surge (update_surge d)
    else no_surge

-- The pods that count when the numbers are compared with what is expected.
pub record Current : Type 0 where
  pub total : ℤ
  pub old : ℤ

unfoldable pub current : Bool → ℕ → Counts → Current
current exclude pods c =
    if exclude
    then record {
      total = pos pods -ℤ pos c.old.pre_deleting -ℤ pos c.new.pre_deleting;
      old = pos c.old.count -ℤ pos c.old.pre_deleting;
    }
    else record { total = pos pods; old = pos c.old.count }

unfoldable pub update_num : UpdateDiffs → ℤ
update_num d = if leb_ℤ (int_abs d.old) (int_abs d.new) then d.old else pos 0 -ℤ d.new

-- The numbers, from the limits, the counts and the number of pods.
unfoldable pub diffs_of : Limits → Counts → ℕ → Bool → UpdateDiffs → ExpectationDiffs
diffs_of l c pods exclude d =
    let s = surge l c d in
    let now = current exclude pods c in
    let expected = l.replicas +ℤ s.use_surge in
    let expected_old = l.partition +ℤ s.old_revision in
    let up = expected -ℤ now.total in
    let down = now.total -ℤ pos c.old.to_delete -ℤ pos c.new.to_delete -ℤ expected in
    let scales_up = ltb_ℤ (pos 0) up in
    let scales_down = ltb_ℤ (pos 0) down in
    let unavailable = pos (total_unavailable c) in
    let num = update_num d in
    record {
      scale_up_num = if scales_up then up else pos 0;
      scale_up_num_old_revision =
          if scales_up then max_ℤ (expected_old -ℤ now.old) (pos 0) else pos 0;
      scale_up_limit =
          if scales_up
          then min_ℤ up (max_ℤ (l.scale_max_unavailable -ℤ unavailable) (pos 0))
          else pos 0;
      scale_down_num = if scales_down then down else pos 0;
      scale_down_num_old_revision =
          if scales_down
          then max_ℤ (now.old -ℤ pos c.old.to_delete -ℤ expected_old) (pos 0)
          else pos 0;
      delete_ready_limit =
          if ltb 0 c.new.to_delete || (ltb 0 c.old.to_delete || scales_down)
          then max_ℤ (l.max_unavailable +ℤ (pos pods -ℤ l.replicas) -ℤ unavailable) (pos 0)
          else pos 0;
      use_surge = s.use_surge;
      use_surge_old_revision = s.old_revision;
      update_num = num;
      update_max_unavailable =
          if eqb_ℤ num (pos 0) then pos 0 else l.max_unavailable +ℤ pos pods -ℤ l.replicas;
    }

-- Without the gate, or between equal revisions, pods move to the new revision only.
abbrev pub forward_only : Env → String → String → Bool
forward_only env current_revision update_revision =
    str_eq update_revision current_revision || not env.clone_set_partition_rollback

-- `is_update` is the test `isPodUpdate` at the update revision, which the caller chooses.
unfoldable pub calculate_diffs_with_expectation :
    Env → CloneSet → List Pod → String → String → (Pod → Bool) → ExpectationDiffs
calculate_diffs_with_expectation env cs pods current_revision update_revision is_update =
    let l = limits env cs in
    let c = count_all env cs is_update pods in
    diffs_of l c (length pods) (should_scaling_exclude_preparing_delete env cs)
      (update_diffs (forward_only env current_revision update_revision) l c)
