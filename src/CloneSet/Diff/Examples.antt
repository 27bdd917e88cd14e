-- ===== src/CloneSet/Diff/Examples.antt =====
-- Runs of the calculation, and the theorems at them.
use kruise.Prelude.{◌≡◌, refl, Bool, not, ◌&&◌, List, count}
use kruise.Prelude.Int.{pos, ◌+ℤ◌, ◌-ℤ◌, min_ℤ, max_ℤ}
use kruise.Util.Pods.{Pod, equal_to_revision_hash, get_pod_lifecycle_state}
use kruise.Util.Tools.{
  calculate_partition_replicas, int_abs, get_scaled_value_from_int_or_percent, clamp_partition,
}
use kruise.CloneSet.Types.{
  should_scaling_exclude_preparing_delete, is_pod_specified_delete, is_pod_available,
}
use kruise.CloneSet.Samples.{env, clone_set, settled_pods, old_pods}
use kruise.CloneSet.Diff.{
  ExpectationDiffs, limits, count_all, update_diffs, scale_surge, update_surge, surge, current,
  update_num, diffs_of, calculate_diffs_with_expectation,
}
use kruise.CloneSet.Diff.Tally.{counted, is_pre_deleting, is_to_delete}
use kruise.CloneSet.Diff.Numbers.{IsScaling}
use kruise.CloneSet.Diff.Bounds.{
  IsSane, calculate-IsSane, calculate-IsScaling, calculate-update_num,
}
use kruise.CloneSet.Diff.Settled.{nothing_to_do, settled-nothing_to_do}

abbrev is_new : Pod → Bool
is_new p = equal_to_revision_hash p "cs-new"

abbrev of_pods : List Pod → ExpectationDiffs
of_pods pods = calculate_diffs_with_expectation env clone_set pods "cs-old" "cs-new" is_new

program : Unit {0}
unfolding calculate_diffs_with_expectation limits count_all update_diffs scale_surge update_surge
    surge current update_num diffs_of calculate_partition_replicas clamp_partition
    get_scaled_value_from_int_or_percent int_abs should_scaling_exclude_preparing_delete
    is_pod_specified_delete is_pod_available equal_to_revision_hash get_pod_lifecycle_state ◌+ℤ◌
    ◌-ℤ◌ min_ℤ max_ℤ
program = tt

-- Two of the three old pods are to be updated, and one is in surge while that goes on.
update_two :
    of_pods old_pods
    ≡ record nothing_to_do { use_surge = pos 1; update_num = pos 2; update_max_unavailable = pos 2 }
unfolding program
update_two = refl

calculate-IsSane_example : IsSane (limits env clone_set).max_surge (of_pods old_pods)
calculate-IsSane_example = calculate-IsSane env clone_set old_pods "cs-old" "cs-new" is_new

calculate-IsScaling_example :
    IsScaling
      (clone_set.replicas +ℤ (of_pods old_pods).use_surge)
      (pos (counted (should_scaling_exclude_preparing_delete env clone_set) old_pods))
      (pos (count (λ p. is_to_delete env clone_set p) old_pods))
      (of_pods old_pods)
calculate-IsScaling_example = calculate-IsScaling env clone_set old_pods "cs-old" "cs-new" is_new

calculate-update_num_example :
    (of_pods old_pods).update_num
    ≡ min_ℤ
        (max_ℤ
          (pos (count (λ p. not (is_new p) && not (is_pre_deleting p)) old_pods)
            -ℤ (limits env clone_set).partition)
          (pos 0))
        (max_ℤ
          (clone_set.replicas
            -ℤ (limits env clone_set).partition
            -ℤ pos (count (λ p. is_new p && not (is_pre_deleting p)) old_pods))
          (pos 0))
calculate-update_num_example =
    calculate-update_num env clone_set old_pods "cs-old" "cs-new" is_new refl

settled-nothing_to_do_example : of_pods settled_pods ≡ nothing_to_do
unfolding program
settled-nothing_to_do_example =
    settled-nothing_to_do env clone_set is_new settled_pods "cs-old" "cs-new"
      (
        record { stays = refl; unmarked = refl; available = refl },
        (
          record { stays = refl; unmarked = refl; available = refl },
          (record { stays = refl; unmarked = refl; available = refl }, tt),
        ),
      )
      refl refl refl
