-- ===== src/United/Elastic/Totals.antt =====
-- What the elastic allocator allocates in all.
use kruise.Prelude.{◌≡◌, refl, ◌∙◌, ap, arith, List, [], ◌∷◌, All, Bool-cases, inl, inr}
use kruise.Prelude.Int.{
  ℤ, pos, pos_part, neg_part, ◌+ℤ◌, ◌-ℤ◌, ◌≤ℤ◌, leb_ℤ, min_ℤ, wrap32, IsInt32, int_laws, int_order,
  eq_of_parts,
}
use kruise.United.Types.{SubsetDef}
use kruise.United.Sums.{at, total, NonNegative, at_bounds, value_or_zero}
use kruise.United.Elastic.{MinMax, Allocation, room, satisfy_min, satisfy_max, alloc}
use kruise.United.Elastic.Room.{room-IsRoom, reach_step, wrap32_between}
use kruise.United.Elastic.Counted.{
  IsDistinct, IsBounded, sum_at, AreFresh, IsCounted, fresh-insert, sum-min-nonneg, sum-min-max,
  fresh-nil, all_of_minima, all_of_maxima, counted_step,
}

-- What is left after a step.
record IsGiven (replicas more : ℤ) (s t : Allocation) : Type 0 where
  counted : IsCounted replicas t
  reached : t.allocated ≡ min_ℤ replicas (s.allocated +ℤ more)

module _ (b : MinMax) (replicas : ℤ) (i : IsInt32 replicas) where
  satisfy_min-IsGiven :
      (ss : List SubsetDef) (s : Allocation)
      → All (IsBounded b) ss
      → IsDistinct ss
      → AreFresh s.subset_replicas ss
      → IsCounted replicas s
      → IsGiven replicas (sum_at b.min_replicas ss) s (satisfy_min b replicas ss s)
  unfolding satisfy_min
  satisfy_min-IsGiven [] s h d f c = record {
    counted = c;
    reached = eq_of_parts _ _ (omega (int_order, c.below));
  }
  satisfy_min-IsGiven (x ∷ ss) s h d f c =
      let q = at x.name b.min_replicas in
      let r = room-IsRoom q replicas s.allocated h.0.nonneg c.above c.below i in
      let add = room q replicas s.allocated in
      let none_yet : at x.name s.subset_replicas ≡ pos 0 = ap value_or_zero f.0 in
      let first : add ≡ at x.name s.subset_replicas +ℤ add =
        eq_of_parts _ _ (omega (int_laws, ap pos_part none_yet, ap neg_part none_yet)) in
      let next = counted_step replicas q add add x.name s i first c r in
      let fresh = fresh-insert x.name add s.subset_replicas ss d.0 f.1 in
      let rest = satisfy_min-IsGiven ss _ h.1 d.1 fresh next in
      record {
        counted = rest.counted;
        reached =
            reach_step replicas q _ s.allocated add _ (sum-min-nonneg b ss h.1) c.above i r
              rest.reached;
      }

  -- What the second step may add to the subsets.
  abbrev sum_left : List SubsetDef → ℤ
  sum_left [] = pos 0
  sum_left (s ∷ ss) = (at s.name b.max_replicas -ℤ at s.name b.min_replicas) +ℤ sum_left ss

  sum_left-nonneg : (ss : List SubsetDef) → All (IsBounded b) ss → pos 0 ≤ℤ sum_left ss
  sum_left-nonneg [] h = omega arith
  sum_left-nonneg (s ∷ ss) h = omega (int_laws, h.0.in_order, sum_left-nonneg ss h.1)

  sum_left-eq :
      (ss : List SubsetDef) → sum_at b.min_replicas ss +ℤ sum_left ss ≡ sum_at b.max_replicas ss
  sum_left-eq [] = eq_of_parts _ _ (omega int_laws)
  sum_left-eq (s ∷ ss) =
      let h = sum_left-eq ss in eq_of_parts _ _ (omega (int_laws, ap pos_part h, ap neg_part h))

  satisfy_max-IsGiven :
      (ss : List SubsetDef) (s : Allocation)
      → All (IsBounded b) ss
      → IsCounted replicas s
      → IsGiven replicas (sum_left ss) s (satisfy_max b replicas ss s)
  unfolding satisfy_max
  satisfy_max-IsGiven [] s h c = record {
    counted = c;
    reached = eq_of_parts _ _ (omega (int_order, c.below));
  }
  satisfy_max-IsGiven (x ∷ ss) s h c =
      let low = at x.name b.min_replicas in
      let high = at x.name b.max_replicas in
      let q = wrap32 (high -ℤ low) in
      let old = at x.name s.subset_replicas in
      let exact : q ≡ high -ℤ low =
        wrap32_between _ high (omega (int_laws, h.0.in_order)) (omega (int_laws, h.0.nonneg))
          h.0.in_range in
      let positive : pos 0 ≤ℤ q =
        omega (int_laws, h.0.in_order, ap pos_part exact, ap neg_part exact) in
      let r = room-IsRoom q replicas s.allocated positive c.above c.below i in
      let add = room q replicas s.allocated in
      let bound = at_bounds x.name s.subset_replicas c.nonneg in
      let more : wrap32 (old +ℤ add) ≡ old +ℤ add =
        wrap32_between _ replicas (omega (int_laws, bound.0, r.nonneg))
          (omega (int_laws, bound.1, ap pos_part c.sum, ap neg_part c.sum, r.within)) i in
      let next = counted_step replicas q add _ x.name s i more c r in
      let rest = satisfy_max-IsGiven ss _ h.1 next in
      record {
        counted = rest.counted;
        reached =
            reach_step replicas q _ s.allocated add _ (sum_left-nonneg ss h.1) c.above i r
              rest.reached
            ∙ ap (λ z. min_ℤ replicas (s.allocated +ℤ (z +ℤ sum_left ss))) exact;
      }

  -- Between subsets of different names, whose bounds are not negative and in order, as many replicas
  -- are allocated as there are, or as many as the maxima allow, if that is less; and none of the
  -- subsets is given a negative number.
  pub alloc-total :
      (ss : List SubsetDef)
      → pos 0 ≤ℤ replicas
      → All (IsBounded b) ss
      → IsDistinct ss
      → (total (alloc replicas b ss) ≡ min_ℤ replicas (sum_at b.max_replicas ss))
        × NonNegative (alloc replicas b ss)
  unfolding alloc
  alloc-total ss h bounds d =
      let start : Allocation = record { subset_replicas = []; allocated = pos 0 } in
      let none_given : IsCounted replicas start = record {
        sum = refl;
        nonneg = tt;
        above = omega arith;
        below = h;
      } in
      let first = satisfy_min-IsGiven ss start bounds d (fresh-nil ss) none_given in
      let second = satisfy_max-IsGiven ss (satisfy_min b replicas ss start) bounds first.counted in
      elim (Bool-cases (leb_ℤ replicas (satisfy_min b replicas ss start).allocated)) [
        | inl full ↦ rw full (
          first.counted.sum
              ∙ all_of_minima replicas _ _ _ (ground arith) (sum-min-max b ss bounds) first.reached,
          first.counted.nonneg,
        )
        | inr left ↦ rw left (
          second.counted.sum
              ∙ all_of_maxima replicas _ _ _ _ _ (sum_left-nonneg ss bounds) (sum_left-eq ss)
                  first.reached second.reached,
          second.counted.nonneg,
        )
      ]
