-- ===== src/CloneSet/Diff/Settled.antt =====
-- A CloneSet that has what it asks for is left alone.
use kruise.Prelude.{
  ℕ, ◌≡◌, refl, ap, sym, ◌∙◌, String, Bool, true, false, not, ◌&&◌, arith, List, [], ◌∷◌, length,
  count, All,
}
use kruise.Prelude.Int.{pos, ◌+ℤ◌, ◌-ℤ◌, min_ℤ, max_ℤ, abs_ℤ, int_laws}
use kruise.Util.Pods.{Pod}
use kruise.Util.Tools.{int_abs}
use kruise.CloneSet.Types.{CloneSet, Env, is_pod_specified_delete, is_pod_available}
use kruise.CloneSet.Diff.{
  Limits, Counts, UpdateDiffs, ExpectationDiffs, limits, count_all, surge, scale_surge,
  update_surge, cap_surge, no_surge, current, update_diffs, update_num, diffs_of, forward_only,
  calculate_diffs_with_expectation,
}
use kruise.CloneSet.Diff.Tally.{is_pre_deleting, is_to_delete, count_all-Tallies}

-- `expectationDiffs{}`
abbrev pub nothing_to_do : ExpectationDiffs
nothing_to_do = record {
  scale_up_num = pos 0;
  scale_up_num_old_revision = pos 0;
  scale_down_num = pos 0;
  scale_down_num_old_revision = pos 0;
  scale_up_limit = pos 0;
  delete_ready_limit = pos 0;
  use_surge = pos 0;
  use_surge_old_revision = pos 0;
  update_num = pos 0;
  update_max_unavailable = pos 0;
}

-- Counters of pods that are all active, available and to be kept.
record IsQuiet (l : Limits) (pods : ℕ) (c : Counts) : Type 0 where
  new_to_delete : c.new.to_delete ≡ 0
  old_to_delete : c.old.to_delete ≡ 0
  new_pre_deleting : c.new.pre_deleting ≡ 0
  old_pre_deleting : c.old.pre_deleting ≡ 0
  new_active : l.replicas -ℤ l.partition ≡ pos c.new.active
  old_active : l.partition ≡ pos c.old.active
  replicas : l.replicas ≡ pos pods

module _ (l : Limits) (pods : ℕ) (c : Counts) (q : IsQuiet l pods c) where
  abbrev at_rest : UpdateDiffs
  at_rest = record { old = pos 0; new = pos 0 }

  update_diffs-quiet : (forward : Bool) → update_diffs forward l c ≡ at_rest
  unfolding update_diffs ◌-ℤ◌ min_ℤ max_ℤ
  update_diffs-quiet forward = rw (q.new_active, q.old_active) (ground arith)

  surge-quiet : surge l c at_rest ≡ no_surge
  unfolding surge scale_surge update_surge cap_surge int_abs abs_ℤ min_ℤ
  surge-quiet = ground (arith, q)

  current-quiet : (exclude : Bool) → (current exclude pods c).total ≡ l.replicas
  unfolding current ◌-ℤ◌
  current-quiet exclude = rw q.replicas (ground (arith, q))

  update_num-quiet : update_num at_rest ≡ pos 0
  unfolding update_num int_abs abs_ℤ
  update_num-quiet = refl

  diffs_of-quiet : (exclude : Bool) → diffs_of l c pods exclude at_rest ≡ nothing_to_do
  unfolding diffs_of
  diffs_of-quiet exclude =
      let up : l.replicas +ℤ pos 0 -ℤ l.replicas ≡ pos 0 = omega int_laws in
      let down : l.replicas -ℤ pos 0 -ℤ pos 0 -ℤ (l.replicas +ℤ pos 0) ≡ pos 0 = omega int_laws in
      rw (surge-quiet, update_num-quiet, current-quiet exclude, q.old_to_delete, q.new_to_delete)
        (rw (up, down))

module _ (env : Env) (cs : CloneSet) (is_update : Pod → Bool) where
  -- An available pod that nobody wants to delete.
  pub record IsKept (p : Pod) : Type 0 where
    pub stays : is_pre_deleting p ≡ false
    pub unmarked : is_pod_specified_delete cs p ≡ false
    pub available : is_pod_available env p cs.min_ready_seconds ≡ true

  count-kept :
      (mine : Pod → Bool) (ps : List Pod)
      → All IsKept ps
      → (count (λ p. mine p && is_pre_deleting p) ps ≡ 0)
        × (count (λ p. mine p && is_to_delete env cs p) ps ≡ 0)
        × (count (λ p. mine p && not (is_pre_deleting p)) ps ≡ count mine ps)
  count-kept mine [] h = (refl, refl, refl)
  count-kept mine (p ∷ ps) h =
      let (a, b, c) = count-kept mine ps h.1 in
      (ground (arith, h.0), ground (arith, h.0), ground (arith, h.0))

  -- If every pod is available and nobody wants to delete it, if the pods are as many as the
  -- replicas, and if the old and the new ones are as many as the partition asks for, then every
  -- number is zero, whatever the surge, the limits and the feature gates: the controller rests.
  pub settled-nothing_to_do :
      (pods : List Pod) (current_revision update_revision : String)
      → All IsKept pods
      → pos (length pods) ≡ cs.replicas
      → pos (count (λ p. not (is_update p)) pods) ≡ (limits env cs).partition
      → pos (count is_update pods) ≡ cs.replicas -ℤ (limits env cs).partition
      → calculate_diffs_with_expectation env cs pods current_revision update_revision is_update
        ≡ nothing_to_do
  unfolding calculate_diffs_with_expectation limits
  settled-nothing_to_do pods current_revision update_revision kept total olds news =
      let c = count_all env cs is_update pods in
      let (new, old) = count_all-Tallies env cs is_update pods in
      let (a, b, n) = count-kept is_update pods kept in
      let (a', b', n') = count-kept (λ p. not (is_update p)) pods kept in
      let q : IsQuiet (limits env cs) (length pods) c = record {
        new_to_delete = omega (arith, new.to_delete_eq, b);
        old_to_delete = omega (arith, old.to_delete_eq, b');
        new_pre_deleting = omega (arith, new.pre_deleting_eq, a);
        old_pre_deleting = omega (arith, old.pre_deleting_eq, a');
        new_active = sym news ∙ ap pos (omega (arith, new.active_eq, n));
        old_active = sym olds ∙ ap pos (omega (arith, old.active_eq, n'));
        replicas = sym total;
      } in
      rw
        (update_diffs-quiet (limits env cs) (length pods) c q
          (forward_only env current_revision update_revision))
        (diffs_of-quiet (limits env cs) (length pods) c q _)
