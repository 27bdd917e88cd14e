-- ===== src/Util/Scatter/Order.antt =====
-- Scattering gives back every index as often as it was there.
use kruise.Prelude.{
  ℕ, suc, ◌+◌, ◌-◌, ◌≤◌, ◌<◌, ◌≡◌, refl, ap, ◌∙◌, Bool, false, ◌||◌, Option, some, List, [], ◌∷◌,
  arith, Bool-cases, inl, inr, ltb, leb, length, take, drop, count, count-append, to_ℕ, All,
}
use kruise.Util.Scatter.{
  Term, Pods, pod_at, matches, mismatches, ScatterGroup, calculate_group_by_density,
  new_scatter_group, migrate_groups, split_last, grouped, scattered, scatter_pods_by_rule,
  scatter_by_terms,
}
use kruise.Util.Scatter.Kept.{
  is_missing, AreParts, split-AreParts, count-take-drop, migrate_groups-count, split_last-count,
  Fits, chosen_group-Fits, new_scatter_group-IsSized,
}

-- Every index is that of a pod, and none occurs more often than there are such pods: as many of the
-- indexes match, or do not match, as of the pods at most.
pub record AreOfPods (term : Term) (pods : Pods) (is : List ℕ) : Type 0 where
  pub present : count (is_missing pods) is ≡ 0
  pub matching : count (λ i. matches term (pod_at pods i)) is ≤ count (matches term) pods
  pub others : count (λ i. mismatches term (pod_at pods i)) is ≤ count (mismatches term) pods

-- The same indexes, in some order.
abbrev pub IsReordered : List ℕ → Option (List ℕ) → Type 0
IsReordered is o = (r : List ℕ) × (o ≡ some r) × ((p : ℕ → Bool) → count p r ≡ count p is)

length-split_last : (i : ℕ) (is : List ℕ) → length (split_last i is).0 ≡ length is
length-split_last i [] = refl
length-split_last i (j ∷ is) = ap suc (length-split_last j is)

module _ (at_least : ℕ → ℕ → ℕ → ℕ → Bool) where
  calculate_group_by_density-Fits :
      (tm tu m u : ℕ)
      → 0 < tm
      → 0 < tu
      → 0 < m
      → 0 < u
      → Fits u (calculate_group_by_density at_least tm tu m u)
  unfolding calculate_group_by_density
  calculate_group_by_density-Fits tm tu m u a b c d =
      chosen_group-Fits (at_least tu tm u m) (new_scatter_group tm tu) (new_scatter_group m u) m u
        (new_scatter_group-IsSized tm tu a b) (new_scatter_group-IsSized m u c d)

  grouped-IsReordered :
      (m u is : List ℕ) (last : ℕ) (o : Option ScatterGroup)
      → Fits (length u) o
      → ((p : ℕ → Bool) → count p m + to_ℕ (p last) + count p u ≡ count p is)
      → IsReordered is (grouped at_least m u last o)
  unfolding Fits
  grouped-IsReordered m u is last o (g, e, le) h =
      let fits : ltb (length u) g.unmatched_remainder ≡ false = ground (arith, le) in
      let r = g.unmatched_remainder in
      rw (e, fits)
        (
          _,
          refl,
          λ p. omega (
            arith,
            h p,
            count-append p (migrate_groups at_least g.group_num g m (drop r u) (take r u))
                (last ∷ []),
            migrate_groups-count at_least p g.group_num g m (drop r u) (take r u),
            count-take-drop p r u,
          ),
        )

  scattered-IsReordered :
      (term : Term) (pods : Pods) (is : List ℕ) (r : List ℕ × List ℕ)
      → AreOfPods term pods is
      → AreParts term pods is r
      → IsReordered is (scattered at_least term pods is (some r))
  scattered-IsReordered term pods is ([], u) h k = (is, refl, λ p. refl)
  scattered-IsReordered term pods is (i ∷ m, u) h k =
      elim (Bool-cases (leb (length (i ∷ m)) 1 || leb (length u) 1)) [
        | inl few ↦ rw few (is, refl, λ p. refl)
        | inr many ↦
            let before = (split_last i m).0 in
            rw many (
              grouped-IsReordered before u is (split_last i m).1 _
                (calculate_group_by_density-Fits (count (matches term) pods - 1)
                  (count (mismatches term) pods) (length before) (length u)
                  (ground (arith, many, h.matching, k.matched))
                  (ground (arith, many, h.others, k.unmatched))
                  (ground (arith, many, length-split_last i m)) (ground (arith, many)))
                (λ p. omega (arith, split_last-count p i m, k.parts p)))
      ]

  scatter_pods_by_rule-IsReordered :
      (term : Term) (pods : Pods) (is : List ℕ)
      → AreOfPods term pods is
      → IsReordered is (scatter_pods_by_rule at_least term pods is)
  unfolding scatter_pods_by_rule
  scatter_pods_by_rule-IsReordered term pods is h =
      let (r, e, k) = split-AreParts term pods is h.present in
      rw e (scattered-IsReordered term pods is r h k)

  AreOfPods-moved :
      (pods : Pods) (terms : List Term) (is js : List ℕ)
      → ((p : ℕ → Bool) → count p js ≡ count p is)
      → All (λ t. AreOfPods t pods is) terms
      → All (λ t. AreOfPods t pods js) terms
  AreOfPods-moved pods [] is js same h = tt
  AreOfPods-moved pods (t ∷ terms) is js same h = (
    record {
      present = omega (arith, same (is_missing pods), h.0.present);
      matching = omega (arith, same (λ i. matches t (pod_at pods i)), h.0.matching);
      others = omega (arith, same (λ i. mismatches t (pod_at pods i)), h.0.others);
    },
    AreOfPods-moved pods terms is js same h.1,
  )

  -- However float32 numbers compare: where the waiting indexes are those of pods, and no more of them
  -- match a term, or do not, than pods do, they are scattered without a fault, and every index is
  -- there as often as before.
  pub scatter_by_terms-IsReordered :
      (terms : List Term) (pods : Pods) (is : List ℕ)
      → All (λ t. AreOfPods t pods is) terms
      → IsReordered is (scatter_by_terms at_least terms pods is)
  unfolding scatter_by_terms
  scatter_by_terms-IsReordered [] pods is h = (is, refl, λ p. refl)
  scatter_by_terms-IsReordered (t ∷ terms) pods is h =
      let (next, e, same) = scatter_pods_by_rule-IsReordered t pods is h.0 in
      let (r, f, same') =
        scatter_by_terms-IsReordered terms pods next
          (AreOfPods-moved pods terms is next same h.1) in
      rw (e, scatter_by_terms) (r, f, λ p. same' p ∙ same p)
