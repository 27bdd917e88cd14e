-- ===== src/Util/Priority/Strict.antt =====
-- The test of the priorities is a strict order.
use kruise.Prelude.{
  if◌then◌else◌, sym, ◌∙◌, refl, ℕ, ◌≡◌, Bool, true, false, not, arith, Bool-cases, inl, inr,
  length, ltb, ◌==◌, String,
}
use kruise.Prelude.Int.{ℤ, parts_apart, ltb_ℤ, eqb_ℤ, leb_ℤ}
use kruise.Prelude.Assoc.{Assoc}
use kruise.Util.Priority.{
  PriorityStrategy, compare_weights, compare_orders, comes_first, compare, get_pod_weight_priority,
  get_pod_order_priority,
}

-- Of two different indexes exactly one comes first, and the order is transitive.
pub record IsStrict (less : ℕ → ℕ → Bool) : Type 0 where
  pub one_way : (i j : ℕ) → (i == j) ≡ false → less i j ≡ not (less j i)
  pub never_itself : (i : ℕ) → less i i ≡ false
  pub transitive : (i j k : ℕ) → less i j ≡ true → less j k ≡ true → less i k ≡ true

weights-IsStrict : (w : ℕ → ℤ) → IsStrict (λ i j. compare_weights (w i) (w j) (ltb j i))
weights-IsStrict w = record {
  one_way = λ i j h. ground (arith, parts_apart (w i), parts_apart (w j));
  never_itself = λ i. ground arith;
  transitive = λ i j k h g. ground (arith, parts_apart (w i), parts_apart (w j), parts_apart (w k));
}

numbers_transitive :
    (x y z i j k : ℕ)
    → (if x == y then ltb j i else ltb y x) ≡ true
    → (if y == z then ltb k j else ltb z y) ≡ true
    → (if x == z then ltb k i else ltb z x) ≡ true
numbers_transitive x y z i j k h g = ground arith

eqb_ℤ_trans : (a b c : ℤ) → eqb_ℤ a b ≡ true → eqb_ℤ b c ≡ true → eqb_ℤ a c ≡ true
eqb_ℤ_trans a b c h g = ground arith

-- The level of a pod that comes first is not the higher one.
compare_orders-leb :
    (a b : ℤ) (x y : ℕ) (d : Bool) → compare_orders (a, x) (b, y) d ≡ true → leb_ℤ a b ≡ true
compare_orders-leb a b x y d h = ground arith

leb_apart :
    (a b c : ℤ)
    → leb_ℤ a b ≡ true
    → leb_ℤ b c ≡ true
    → eqb_ℤ a c ≡ true
    → (eqb_ℤ a b ≡ true) × (eqb_ℤ b c ≡ true)
leb_apart a b c h g e = ground arith

leb_ltb : (a b c : ℤ) → leb_ℤ a b ≡ true → leb_ℤ b c ≡ true → eqb_ℤ a c ≡ false → ltb_ℤ a c ≡ true
leb_ltb a b c h g e = ground arith

-- The levels, the numbers and the indexes of three pods.
orders_transitive :
    (a b c : ℤ) (x y z i j k : ℕ)
    → compare_orders (a, x) (b, y) (ltb j i) ≡ true
    → compare_orders (b, y) (c, z) (ltb k j) ≡ true
    → compare_orders (a, x) (c, z) (ltb k i) ≡ true
orders_transitive a b c x y z i j k h g =
    let below = compare_orders-leb a b x y _ h in
    let below' = compare_orders-leb b c y z _ g in
    elim (Bool-cases (eqb_ℤ a c)) [
      | inl same ↦
          let both = leb_apart a b c below below' same in
          rw same (numbers_transitive x y z i j k (rw both.0 at h) (rw both.1 at g))
      | inr other ↦ rw other (leb_ltb a b c below below' other)
    ]

orders-IsStrict : (o : ℕ → ℤ × ℕ) → IsStrict (λ i j. compare_orders (o i) (o j) (ltb j i))
orders-IsStrict o = record {
  one_way = λ i j h. ground (arith, parts_apart (o i).0, parts_apart (o j).0);
  never_itself = λ i. ground arith;
  transitive =
      λ i j k h g. orders_transitive (o i).0 (o j).0 (o k).0 (o i).1 (o j).1 (o k).1 i j k h g;
}

indexes-IsStrict : IsStrict (λ i j. ltb j i)
indexes-IsStrict = record {
  one_way = λ i j h. ground arith;
  never_itself = λ i. ground arith;
  transitive = λ i j k h g. ground arith;
}

IsStrict-same : (f g : ℕ → ℕ → Bool) → ((i j : ℕ) → f i j ≡ g i j) → IsStrict g → IsStrict f
IsStrict-same f g same h = record {
  one_way = λ i j e. rw (same i j, same j i) (h.one_way i j e);
  never_itself = λ i. rw (same i i) (h.never_itself i);
  transitive =
      λ i j k e d. rw (same i k) (h.transitive i j k (sym (same i j) ∙ e) (sym (same j k) ∙ d));
}

-- Whatever the weights or the ordered keys and the labels of the pods: of two different indexes of
-- pods exactly one comes first, none comes before itself, and the order is transitive.
pub comes_first-IsStrict :
    (s : PriorityStrategy) (labels : ℕ → Assoc String) → IsStrict (comes_first s labels)
unfolding comes_first compare
comes_first-IsStrict s labels = elim (Bool-cases (ltb 0 (length s.weight_priority))) [
  | inl weighted ↦
      IsStrict-same _ (λ i j. compare_weights (weight i) (weight j) (ltb j i))
        (λ i j. rw weighted refl) (weights-IsStrict weight)
  | inr not_weighted ↦ elim (Bool-cases (ltb 0 (length s.order_priority))) [
    | inl ordered ↦
        IsStrict-same _ (λ i j. compare_orders (order i) (order j) (ltb j i))
          (λ i j. rw (not_weighted, ordered) refl) (orders-IsStrict order)
    | inr neither ↦
        IsStrict-same _ (λ i j. ltb j i) (λ i j. rw (not_weighted, neither) refl) indexes-IsStrict
  ]
]
  where
    weight : ℕ → ℤ
    weight i = get_pod_weight_priority s.weight_priority (labels i)

    order : ℕ → ℤ × ℕ
    order i = get_pod_order_priority s.order_priority (labels i) 0
