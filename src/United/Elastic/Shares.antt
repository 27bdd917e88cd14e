-- ===== src/United/Elastic/Shares.antt =====
-- What the elastic allocator gives to each subset.
use kruise.Prelude.{
  ◌≡◌, ◌≢◌, refl, sym, ap, ◌∙◌, arith, String, str_eq_iff, str_eq_refl, List, [], ◌∷◌, All,
  Bool-cases, inl, inr,
}
use kruise.Prelude.Int.{
  ℤ, pos, pos_part, neg_part, ◌+ℤ◌, ◌-ℤ◌, ◌≤ℤ◌, leb_ℤ, wrap32, int_laws, int_order,
}
use kruise.Prelude.Assoc.{insert, lookup, lookup-insert}
use kruise.United.Types.{SubsetDef}
use kruise.United.Sums.{Replicas, at, value_or_zero}
use kruise.United.Elastic.{MinMax, Allocation, room, satisfy_min, satisfy_max, alloc}
use kruise.United.Elastic.Room.{wrap32_between}
use kruise.United.Elastic.Counted.{IsDistinct, IsBounded}

room-le :
    (quota replicas allocated : ℤ)
    → pos 0 ≤ℤ quota
    → (pos 0 ≤ℤ room quota replicas allocated) × (room quota replicas allocated ≤ℤ quota)
unfolding room
room-le quota replicas allocated h = omega int_order

at-insert : (k : String) (v : ℤ) (m : Replicas) → at k (insert k v m) ≡ v
at-insert k v m = ap value_or_zero (lookup-insert k k v m) ∙ rw (str_eq_refl k) refl

at-insert_other : (k j : String) (v : ℤ) (m : Replicas) → k ≢ j → at j (insert k v m) ≡ at j m
at-insert_other k j v m ne =
    let same : lookup j (insert k v m) ≡ lookup j m =
      lookup-insert k j v m ∙ ground (arith, str_eq_iff k j) in
    ap value_or_zero same

-- The subset has between 0 and `limit` replicas.
abbrev pub IsShare : Replicas → Replicas → SubsetDef → Type 0
IsShare limit m s = (pos 0 ≤ℤ at s.name m) × (at s.name m ≤ℤ at s.name limit)

shares-insert :
    (limit m : Replicas) (k : String) (v : ℤ) (ss : List SubsetDef)
    → All (λ (t : SubsetDef). k ≢ t.name) ss
    → All (IsShare limit m) ss
    → All (IsShare limit (insert k v m)) ss
shares-insert limit m k v [] d h = tt
shares-insert limit m k v (s ∷ ss) d h =
    (rw (at-insert_other k s.name v m d.0) h.0, shares-insert limit m k v ss d.1 h.1)

module _ (b : MinMax) (replicas : ℤ) where
  min-others :
      (k : String) (ss : List SubsetDef) (s : Allocation)
      → All (λ (t : SubsetDef). k ≢ t.name) ss
      → at k (satisfy_min b replicas ss s).subset_replicas ≡ at k s.subset_replicas
  unfolding satisfy_min
  min-others k [] s d = refl
  min-others k (x ∷ ss) s d =
      min-others k ss _ d.1 ∙ at-insert_other x.name k _ s.subset_replicas (λ e. d.0 (sym e))

  max-others :
      (k : String) (ss : List SubsetDef) (s : Allocation)
      → All (λ (t : SubsetDef). k ≢ t.name) ss
      → at k (satisfy_max b replicas ss s).subset_replicas ≡ at k s.subset_replicas
  unfolding satisfy_max
  max-others k [] s d = refl
  max-others k (x ∷ ss) s d =
      max-others k ss _ d.1 ∙ at-insert_other x.name k _ s.subset_replicas (λ e. d.0 (sym e))

  min-shares :
      (ss : List SubsetDef) (s : Allocation)
      → All (IsBounded b) ss
      → IsDistinct ss
      → All (IsShare b.min_replicas (satisfy_min b replicas ss s).subset_replicas) ss
  unfolding satisfy_min
  min-shares [] s h d = tt
  min-shares (x ∷ ss) s h d =
      let q = at x.name b.min_replicas in
      let add = room q replicas s.allocated in
      let next : Allocation = record {
        subset_replicas = insert x.name add s.subset_replicas;
        allocated = wrap32 (s.allocated +ℤ add);
      } in
      let here = min-others x.name ss next d.0 ∙ at-insert x.name add s.subset_replicas in
      (rw here (room-le q replicas s.allocated h.0.nonneg), min-shares ss next h.1 d.1)

  max-shares :
      (ss : List SubsetDef) (s : Allocation)
      → All (IsBounded b) ss
      → IsDistinct ss
      → All (IsShare b.min_replicas s.subset_replicas) ss
      → All (IsShare b.max_replicas (satisfy_max b replicas ss s).subset_replicas) ss
  unfolding satisfy_max
  max-shares [] s h d f = tt
  max-shares (x ∷ ss) s h d f =
      let low = at x.name b.min_replicas in
      let high = at x.name b.max_replicas in
      let q = wrap32 (high -ℤ low) in
      let exact : q ≡ high -ℤ low =
        wrap32_between _ high (omega (int_laws, h.0.in_order)) (omega (int_laws, h.0.nonneg))
          h.0.in_range in
      let add = room q replicas s.allocated in
      let given =
        room-le q replicas s.allocated
          (omega (int_laws, h.0.in_order, ap pos_part exact, ap neg_part exact)) in
      let old = at x.name s.subset_replicas in
      let fits : old +ℤ add ≤ℤ high =
        omega (int_laws, f.0.1, given.1, ap pos_part exact, ap neg_part exact) in
      let v = wrap32 (old +ℤ add) in
      let sum : v ≡ old +ℤ add =
        wrap32_between _ high (omega (int_laws, f.0.0, given.0)) fits h.0.in_range in
      let next : Allocation = record {
        subset_replicas = insert x.name v s.subset_replicas;
        allocated = wrap32 (s.allocated +ℤ add);
      } in
      let here = max-others x.name ss next d.0 ∙ at-insert x.name v s.subset_replicas ∙ sum in
      (
        rw here (omega (int_laws, f.0.0, given.0), fits),
        max-shares ss next h.1 d.1
            (shares-insert b.min_replicas s.subset_replicas x.name v ss d.0 f.1),
      )

weaken :
    (b : MinMax) (m : Replicas) (ss : List SubsetDef)
    → All (IsBounded b) ss
    → All (IsShare b.min_replicas m) ss
    → All (IsShare b.max_replicas m) ss
weaken b m [] h f = tt
weaken b m (s ∷ ss) h f = ((f.0.0, omega (arith, f.0.1, h.0.in_order)), weaken b m ss h.1 f.1)

-- Between subsets of different names, whose bounds are int32, not negative and in order: each is
-- given a number of replicas between 0 and its maximum, however many replicas there are.
pub alloc-shares :
    (b : MinMax) (replicas : ℤ) (ss : List SubsetDef)
    → All (IsBounded b) ss
    → IsDistinct ss
    → All (IsShare b.max_replicas (alloc replicas b ss)) ss
unfolding alloc
alloc-shares b replicas ss h d =
    let start : Allocation = record { subset_replicas = []; allocated = pos 0 } in
    let first = min-shares b replicas ss start h d in
    elim (Bool-cases (leb_ℤ replicas (satisfy_min b replicas ss start).allocated)) [
      | inl full ↦ rw full (weaken b _ ss h first)
      | inr left ↦ rw left (max-shares b replicas ss _ h d first)
    ]
