-- ===== src/CloneSet/Diff/Tally.antt =====
-- The counters as counts over the pods.
use kruise.Prelude.{
  ℕ, length, ◌+◌, ◌≡◌, str_eq, Bool, true, false, ◌&&◌, not, List, [], ◌∷◌, arith, count,
  Bool-cases, inl, inr,
}
use kruise.Util.LifecycleState
use kruise.Util.Pods.{Pod, get_pod_lifecycle_state}
use kruise.CloneSet.Types.{CloneSet, Env, is_pod_specified_delete, is_pod_available}
use kruise.CloneSet.Diff.{RevisionCount, Counts, zero_count, count_pod, count_pods, count_all}

abbrev pub is_pre_deleting : Pod → Bool
is_pre_deleting p = str_eq (get_pod_lifecycle_state p) LifecycleState.preparing_delete

-- The pods that scaling counts, without those that are being deleted if `exclude` is set.
abbrev pub counted : Bool → List Pod → ℕ
counted true pods = count (λ p. not (is_pre_deleting p)) pods
counted false pods = length pods

module _ (env : Env) (cs : CloneSet) where
  abbrev pub is_to_delete : Pod → Bool
  is_to_delete p = not (is_pre_deleting p) && is_pod_specified_delete cs p

  abbrev pub is_unavailable : Pod → Bool
  is_unavailable p =
      not (is_pre_deleting p)
      && (not (is_pod_specified_delete cs p) && not (is_pod_available env p cs.min_ready_seconds))

  -- The counters of the pods that pass `mine`, added to those of `c`.
  pub record Tallies (mine : Pod → Bool) (ps : List Pod) (c d : RevisionCount) : Type 0 where
    pub count_eq : d.count ≡ c.count + count mine ps
    pub active_eq : d.active ≡ c.active + count (λ p. mine p && not (is_pre_deleting p)) ps
    pub pre_deleting_eq :
        d.pre_deleting ≡ c.pre_deleting + count (λ p. mine p && is_pre_deleting p) ps
    pub to_delete_eq : d.to_delete ≡ c.to_delete + count (λ p. mine p && is_to_delete p) ps
    pub unavailable_eq : d.unavailable ≡ c.unavailable + count (λ p. mine p && is_unavailable p) ps

  Tallies-mine :
      (mine : Pod → Bool) (p : Pod) (ps : List Pod) (c d : RevisionCount)
      → mine p ≡ true
      → Tallies mine ps (count_pod env cs p c) d
      → Tallies mine (p ∷ ps) c d
  unfolding count_pod
  Tallies-mine mine p ps c d h t = ground arith

  Tallies-other :
      (mine : Pod → Bool) (p : Pod) (ps : List Pod) (c d : RevisionCount)
      → mine p ≡ false
      → Tallies mine ps c d
      → Tallies mine (p ∷ ps) c d
  Tallies-other mine p ps c d h t = ground arith

  count_pods-Tallies :
      (is_update : Pod → Bool) (ps : List Pod) (c : Counts)
      → Tallies is_update ps c.new (count_pods env cs is_update ps c).new
        × Tallies (λ p. not (is_update p)) ps c.old (count_pods env cs is_update ps c).old
  unfolding count_pods count_pod
  count_pods-Tallies is_update [] c = (omega arith, omega arith)
  count_pods-Tallies is_update (p ∷ ps) c = elim (Bool-cases (is_update p)) [
    | inl new ↦
        let next : Counts = record c { new = count_pod env cs p c.new } in
        let (a, b) = count_pods-Tallies is_update ps next in
        rw (new, count_pods)
          (
            Tallies-mine is_update p ps c.new _ new a,
            Tallies-other (λ q. not (is_update q)) p ps c.old _ (rw new) b,
          )
    | inr old ↦
        let next : Counts = record c { old = count_pod env cs p c.old } in
        let (a, b) = count_pods-Tallies is_update ps next in
        rw (old, count_pods)
          (
            Tallies-other is_update p ps c.new _ old a,
            Tallies-mine (λ q. not (is_update q)) p ps c.old _ (rw old) b,
          )
  ]

  -- Every counter is the number of pods that it is named for.
  pub count_all-Tallies :
      (is_update : Pod → Bool) (ps : List Pod)
      → Tallies is_update ps zero_count (count_all env cs is_update ps).new
        × Tallies (λ p. not (is_update p)) ps zero_count (count_all env cs is_update ps).old
  unfolding count_all
  count_all-Tallies is_update ps = count_pods-Tallies is_update ps _
