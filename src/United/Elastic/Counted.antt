-- ===== src/United/Elastic/Counted.antt =====
-- The bounds of the subsets, and what an allocation counts while it gives to one after the other.
use kruise.Prelude.{◌≡◌, ◌≢◌, refl, ap, arith, String, str_eq_iff, none, List, [], ◌∷◌, All}
use kruise.Prelude.Int.{
  ℤ, pos, pos_part, neg_part, ◌+ℤ◌, ◌≤ℤ◌, min_ℤ, wrap32, IsInt32, int_laws, int_order, eq_of_parts,
}
use kruise.Prelude.Assoc.{insert, lookup, lookup-insert}
use kruise.United.Types.{SubsetDef}
use kruise.United.Sums.{
  Replicas, at, total, total-insert, NonNegative, insert-NonNegative, at_bounds,
}
use kruise.United.Elastic.{MinMax, Allocation}
use kruise.United.Elastic.Room.{IsRoom, exact_sum}

-- The names of the subsets differ.
abbrev pub IsDistinct : List SubsetDef → Type 0
IsDistinct [] = Unit
IsDistinct (s ∷ ss) = All (λ (t : SubsetDef). s.name ≢ t.name) ss × IsDistinct ss

-- The bounds of the subsets are int32, not negative and in order.
pub record IsBounded (b : MinMax) (s : SubsetDef) : Type 0 where
  pub nonneg : pos 0 ≤ℤ at s.name b.min_replicas
  pub in_order : at s.name b.min_replicas ≤ℤ at s.name b.max_replicas
  pub in_range : IsInt32 (at s.name b.max_replicas)

abbrev pub sum_at : Replicas → List SubsetDef → ℤ
sum_at m [] = pos 0
sum_at m (s ∷ ss) = at s.name m +ℤ sum_at m ss

-- No subset of the list has replicas yet.
abbrev pub AreFresh : Replicas → List SubsetDef → Type 0
AreFresh m ss = All (λ (s : SubsetDef). lookup s.name m ≡ none) ss

pub fresh-insert :
    (k : String) (v : ℤ) (m : Replicas) (ss : List SubsetDef)
    → All (λ (t : SubsetDef). k ≢ t.name) ss
    → AreFresh m ss
    → AreFresh (insert k v m) ss
fresh-insert k v m [] d f = tt
fresh-insert k v m (s ∷ ss) d f =
    (ground (arith, lookup-insert k s.name v m, str_eq_iff k s.name), fresh-insert k v m ss d.1 f.1)

pub sum-min-nonneg :
    (b : MinMax) (ss : List SubsetDef) → All (IsBounded b) ss → pos 0 ≤ℤ sum_at b.min_replicas ss
sum-min-nonneg b [] h = omega arith
sum-min-nonneg b (s ∷ ss) h = omega (int_laws, h.0.nonneg, sum-min-nonneg b ss h.1)

pub sum-min-max :
    (b : MinMax) (ss : List SubsetDef)
    → All (IsBounded b) ss
    → sum_at b.min_replicas ss ≤ℤ sum_at b.max_replicas ss
sum-min-max b [] h = omega arith
sum-min-max b (s ∷ ss) h = omega (int_laws, h.0.in_order, sum-min-max b ss h.1)

-- The counter is the sum of the map, which is within the replicas.
pub record IsCounted (replicas : ℤ) (s : Allocation) : Type 0 where
  pub sum : total s.subset_replicas ≡ s.allocated
  pub nonneg : NonNegative s.subset_replicas
  pub above : pos 0 ≤ℤ s.allocated
  pub below : s.allocated ≤ℤ replicas

pub fresh-nil : (ss : List SubsetDef) → AreFresh [] ss
fresh-nil [] = tt
fresh-nil (s ∷ ss) = (refl, fresh-nil ss)

pub all_of_minima :
    (replicas a minima maxima : ℤ)
    → replicas ≤ℤ a
    → minima ≤ℤ maxima
    → a ≡ min_ℤ replicas (pos 0 +ℤ minima)
    → a ≡ min_ℤ replicas maxima
all_of_minima replicas a minima maxima full le e =
    eq_of_parts _ _ (omega (int_order, ap pos_part e, ap neg_part e))

pub all_of_maxima :
    (replicas a t minima left maxima : ℤ)
    → pos 0 ≤ℤ left
    → minima +ℤ left ≡ maxima
    → a ≡ min_ℤ replicas (pos 0 +ℤ minima)
    → t ≡ min_ℤ replicas (a +ℤ left)
    → t ≡ min_ℤ replicas maxima
all_of_maxima replicas a t minima left maxima h sum e f = eq_of_parts _ _ (
    omega (
      int_order,
      ap pos_part e,
      ap neg_part e,
      ap pos_part f,
      ap neg_part f,
      ap pos_part sum,
      ap neg_part sum,
    ))

-- One subset is given `add` more.
pub counted_step :
    (replicas quota add v : ℤ) (k : String) (s : Allocation)
    → IsInt32 replicas
    → v ≡ at k s.subset_replicas +ℤ add
    → IsCounted replicas s
    → IsRoom quota replicas s.allocated add
    → IsCounted replicas (record {
      subset_replicas = insert k v s.subset_replicas;
      allocated = wrap32 (s.allocated +ℤ add);
    })
counted_step replicas quota add v k s i e c r =
    let old = at k s.subset_replicas in
    let bound = at_bounds k s.subset_replicas c.nonneg in
    let inserted = total-insert k v s.subset_replicas in
    rw (exact_sum quota replicas s.allocated add c.above i r) record {
      sum = eq_of_parts _ _ (
          omega (
            int_laws,
            ap pos_part e,
            ap neg_part e,
            ap pos_part inserted,
            ap neg_part inserted,
            ap pos_part c.sum,
            ap neg_part c.sum,
          ));
      nonneg =
          insert-NonNegative k v s.subset_replicas
            (omega (int_laws, ap pos_part e, ap neg_part e, bound.0, r.nonneg)) c.nonneg;
      above = omega (int_laws, c.above, r.nonneg);
      below = r.within;
    }
