-- ===== src/CloneSet/Diff/Bounds.antt =====
-- What the numbers of `calculateDiffsWithExpectation` guarantee.
use kruise.Prelude.{
  refl, false, count-split, count-not, ◌≡◌, ap, ◌⊎◌, String, Bool, true, not, ◌&&◌, arith,
  Bool-cases, inl, inr, List, length, count,
}
use kruise.Prelude.Int.{
  ℤ, pos, ◌+ℤ◌, ◌-ℤ◌, ◌≤ℤ◌, ◌<ℤ◌, pos_part, neg_part, ltb_ℤ, min_ℤ, max_ℤ, int_laws,
}
use kruise.Util.Pods.{Pod}
use kruise.CloneSet.Types.{CloneSet, Env, should_scaling_exclude_preparing_delete}
use kruise.CloneSet.Diff.{
  Limits, Counts, UpdateDiffs, ExpectationDiffs, limits, count_all, current, update_diffs, diffs_of,
  forward_only, calculate_diffs_with_expectation,
}
use kruise.CloneSet.Diff.Tally.{counted, is_pre_deleting, is_to_delete, count_all-Tallies}
use kruise.CloneSet.Diff.Numbers.{
  surge-IsSurgeUpTo, IsScaling, diffs_of-IsScaling, diffs_of-IsWithin, update_num-forward,
}

-- What the comments on the fields of `expectationDiffs` promise.
pub record IsSane (max_surge : ℤ) (e : ExpectationDiffs) : Type 0 where
  pub scale_up_nonneg : pos 0 ≤ℤ e.scale_up_num
  pub scale_down_nonneg : pos 0 ≤ℤ e.scale_down_num
  pub not_both : (e.scale_up_num ≤ℤ pos 0) ⊎ (e.scale_down_num ≤ℤ pos 0)
  pub limit_nonneg : pos 0 ≤ℤ e.scale_up_limit
  pub limit_le : e.scale_up_limit ≤ℤ e.scale_up_num
  pub up_old_nonneg : pos 0 ≤ℤ e.scale_up_num_old_revision
  pub down_old_nonneg : pos 0 ≤ℤ e.scale_down_num_old_revision
  pub delete_ready_nonneg : pos 0 ≤ℤ e.delete_ready_limit
  pub surge_nonneg : pos 0 ≤ℤ e.use_surge
  pub surge_capped : e.use_surge ≤ℤ max_ℤ max_surge (pos 0)
  pub surge_old_nonneg : pos 0 ≤ℤ e.use_surge_old_revision
  pub surge_old_le : e.use_surge_old_revision ≤ℤ e.use_surge

opposite :
    (expected now marked up down : ℤ)
    → pos 0 ≤ℤ marked
    → pos 0 <ℤ up
    → pos 0 <ℤ down
    → now +ℤ up ≡ expected
    → now -ℤ marked -ℤ down ≡ expected
    → ⊥
opposite expected now marked up down h hu hd eu ed =
    omega (int_laws, ap pos_part eu, ap neg_part eu, ap pos_part ed, ap neg_part ed)

not_both_of :
    (expected now marked : ℤ) {e : ExpectationDiffs}
    → pos 0 ≤ℤ marked
    → IsScaling expected now marked e
    → (e.scale_up_num ≤ℤ pos 0) ⊎ (e.scale_down_num ≤ℤ pos 0)
not_both_of expected now marked {e} h s = elim (Bool-cases (ltb_ℤ (pos 0) e.scale_up_num)) [
  | inr low ↦ inl (ground arith)
  | inl up ↦ elim (Bool-cases (ltb_ℤ (pos 0) e.scale_down_num)) [
    | inr low ↦ inr (ground arith)
    | inl down ↦
        let hu : pos 0 <ℤ e.scale_up_num = ground arith in
        let hd : pos 0 <ℤ e.scale_down_num = ground arith in
        absurd (opposite expected now marked _ _ h hu hd (s.up hu) (s.down hd))
  ]
]

module _ (env : Env) (cs : CloneSet) (pods : List Pod) (current_revision update_revision : String)
    (is_update : Pod → Bool) where
  abbrev diffs : ExpectationDiffs
  diffs = calculate_diffs_with_expectation env cs pods current_revision update_revision is_update

  abbrev l : Limits
  l = limits env cs

  abbrev c : Counts
  c = count_all env cs is_update pods

  abbrev d : UpdateDiffs
  d = update_diffs (forward_only env current_revision update_revision) l c

  abbrev exclude : Bool
  exclude = should_scaling_exclude_preparing_delete env cs

  -- Whatever the specification and the pods: no number that is promised to be non-negative is
  -- negative, the controller never has to scale up and down at once, the limit on creations is
  -- within the number to create, and the surge in use is within the maximum surge.
  pub calculate-IsSane : IsSane (limits env cs).max_surge diffs
  unfolding calculate_diffs_with_expectation diffs_of
  calculate-IsSane =
      let scaling = diffs_of-IsScaling l c (length pods) exclude d in
      let within = diffs_of-IsWithin l c (length pods) exclude d in
      let s = surge-IsSurgeUpTo l c d in
      record {
        scale_up_nonneg = scaling.up_nonneg;
        scale_down_nonneg = scaling.down_nonneg;
        not_both = not_both_of _ _ _ (omega int_laws) scaling;
        limit_nonneg = within.limit_nonneg;
        limit_le = within.limit_le;
        up_old_nonneg = within.up_old_nonneg;
        down_old_nonneg = within.down_old_nonneg;
        delete_ready_nonneg = within.delete_ready_nonneg;
        surge_nonneg = s.total;
        surge_capped = s.capped;
        surge_old_nonneg = s.old;
        surge_old_le = s.within;
      }

  current-counted : (b : Bool) → (current b (length pods) c).total ≡ pos (counted b pods)
  unfolding current
  current-counted true =
      let (new, old) = count_all-Tallies env cs is_update pods in
      omega (
        int_laws,
        new.pre_deleting_eq,
        old.pre_deleting_eq,
        count-split is_update is_pre_deleting pods,
        count-not is_pre_deleting pods,
      )
  current-counted false = refl

  marked_eq :
      pos c.old.to_delete +ℤ pos c.new.to_delete ≡ pos (count (λ p. is_to_delete env cs p) pods)
  marked_eq =
      let (new, old) = count_all-Tallies env cs is_update pods in
      omega (
        int_laws,
        new.to_delete_eq,
        old.to_delete_eq,
        count-split is_update (λ p. is_to_delete env cs p) pods,
      )

  -- Creating the number to scale up, or deleting the number to scale down besides the pods that
  -- are already marked for deletion, leads exactly to the replicas plus the surge in use; where
  -- neither number is positive, the pods without those marked are no more than that, and with them
  -- no fewer. The pods are counted without those in PreparingDelete where the CloneSet asks for it.
  pub calculate-IsScaling :
      IsScaling
        (cs.replicas +ℤ diffs.use_surge)
        (pos (counted exclude pods))
        (pos (count (λ p. is_to_delete env cs p) pods))
        diffs
  unfolding calculate_diffs_with_expectation diffs_of limits
  calculate-IsScaling =
      rw (← marked_eq, ← current-counted exclude) (diffs_of-IsScaling l c (length pods) exclude d)

  -- Where pods only move to the new revision, the number to update is not negative, and is the
  -- number of active old pods above the partition or the number of active new pods that are
  -- missing below it, whichever is less: the update neither eats into the partition nor
  -- overshoots the new revision.
  pub calculate-update_num :
      forward_only env current_revision update_revision ≡ true
      → diffs.update_num
        ≡ min_ℤ
            (max_ℤ
              (pos (count (λ p. not (is_update p) && not (is_pre_deleting p)) pods)
                -ℤ (limits env cs).partition)
              (pos 0))
            (max_ℤ
              (cs.replicas
                -ℤ (limits env cs).partition
                -ℤ pos (count (λ p. is_update p && not (is_pre_deleting p)) pods))
              (pos 0))
  unfolding calculate_diffs_with_expectation diffs_of limits
  calculate-update_num h =
      let (new, old) = count_all-Tallies env cs is_update pods in
      let old_eq : c.old.active ≡ count (λ p. not (is_update p) && not (is_pre_deleting p)) pods =
        omega (arith, old.active_eq) in
      let new_eq : c.new.active ≡ count (λ p. is_update p && not (is_pre_deleting p)) pods =
        omega (arith, new.active_eq) in
      rw (h, ← old_eq, ← new_eq) (update_num-forward l c)
