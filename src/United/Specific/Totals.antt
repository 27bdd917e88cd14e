-- ===== src/United/Specific/Totals.antt =====
-- What the specific allocator shares out in all.
use kruise.Prelude.{
  ℕ, suc, ◌+◌, ◌-◌, ◌*◌, ◌/◌, ◌%◌, ◌^◌, ◌≤◌, ◌<◌, ◌≡◌, ◌≢◌, ◌⊎◌, refl, ap, arith, true, false, List,
  [], ◌∷◌, All, Bool-cases, inl, inr, ◌==◌, length, count,
}
use native.Mathlib.Nat.{div-le_self, div-add-mod, div-add-mod', mod-lt, le-mul_of_pos_right}
use kruise.Prelude.Int.{
  ℤ, pos, pos_part, neg_part, ◌+ℤ◌, ◌-ℤ◌, ◌≤ℤ◌, wrap32, wrap32_id, IsInt32, parts_apart, int_laws,
  eq_of_parts, quot_ℤ, rem_ℤ,
}
use kruise.United.Sums.{Replicas, NonNegative}
use kruise.United.Specific.Shares.{IsHonored, normal_allocate-IsHonored}
use kruise.United.Specific.{
  NameToReplicas, Left, is_specified, mark, give, share_out, specified_sum, normal_allocate,
}
use kruise.United.Specific.Sums.{
  allotted, own, free, fixed, AreFresh, fixed-nonneg, mark-own, mark-free, specified_sum-fixed,
}

-- A subset that is not marked has the average or one more.
abbrev pub IsFair : ℕ → NameToReplicas → Type 0
IsFair average i =
    (i.specified ≡ true) ⊎ ((i.replicas ≡ pos average) ⊎ (i.replicas ≡ pos (suc average)))

-- What the loop gives to the subsets.
record IsShared (average : ℕ) (is : List NameToReplicas) (left : Left)
    (out : List NameToReplicas × Left) : Type 0 where
  taken : out.1.subsets + free is ≡ left.subsets
  remainder : out.1.remainder ≡ left.remainder - free is
  sum : allotted out.0 +ℤ pos out.1.remainder ≡ own is +ℤ pos (free is * average + left.remainder)
  fair : All (IsFair average) out.0

suc_times : (n a : ℕ) → (1 + n) * a ≡ n * a + a
suc_times n a = grind arith

-- One round of the loop, after those for the subsets behind it.
give-IsShared :
    (average : ℕ) (i : NameToReplicas) (is : List NameToReplicas) (left : Left)
    (out : List NameToReplicas × Left)
    → wrap32 (pos average) ≡ pos average
    → (left.remainder ≡ 0) ⊎ (wrap32 (pos average +ℤ pos 1) ≡ pos (suc average))
    → free (i ∷ is) ≤ left.subsets
    → IsShared average is left out
    → IsShared average
        (i ∷ is)
        left
        ((give (pos average) i out.1).0 ∷ out.0, (give (pos average) i out.1).1)
give-IsShared average i is left out exact next enough h = elim (Bool-cases i.specified) [
  | inl set ↦ elim (Bool-cases (out.1.subsets == 0)) [
    | inl over ↦ rw (over, set) kept
    | inr more ↦ rw (more, set) kept
  ]
  | inr unset ↦
      let more : (out.1.subsets == 0) ≡ false = ground (arith, h.taken, unset) in
      elim (Bool-cases (out.1.remainder == 0)) [
        | inl even ↦
            rw (more, unset, even, exact)
              (given unset average 0 0 (ground arith) (ground arith) (inl refl) (omega arith))
        | inr odd ↦
            rw (more, unset, odd, one_above (ground arith))
              (given unset (suc average) 1 (out.1.remainder - 1) (ground arith) (ground arith)
                (inr refl) (omega arith))
      ]
]
  where
    kept :
        IsShared average
          (record i { specified = true } ∷ is)
          left
          (record i { specified = true } ∷ out.0, out.1)
    kept = record {
      taken = omega (arith, h.taken);
      remainder = omega (arith, h.remainder);
      sum = eq_of_parts _ _ (omega (int_laws, ap pos_part h.sum, ap neg_part h.sum));
      fair = (inl refl, h.fair);
    }

    one_above : out.1.remainder ≢ 0 → wrap32 (pos average +ℤ pos 1) ≡ pos (suc average)
    one_above some_left = elim next [
      | inl nothing ↦ absurd (some_left (omega (arith, h.remainder, nothing)))
      | inr exact' ↦ exact'
    ]

    given :
        i.specified ≡ false
        → (amount extra rest : ℕ) → out.1.remainder ≡ rest + extra
        → rest ≡ left.remainder - (1 + free is)
        → (amount ≡ average) ⊎ (amount ≡ suc average)
        → amount ≡ average + extra
        → IsShared average (record i { specified = false } ∷ is) left (
          record i { replicas = pos amount; specified = false } ∷ out.0,
          record { remainder = rest; subsets = out.1.subsets - 1 },
        )
    given unset amount extra rest all less few plus = record {
      taken = ground (arith, h.taken, enough, unset);
      remainder = less;
      sum = eq_of_parts _ _ (
          omega (int_laws, suc_times (free is) average, all, ap pos_part h.sum, ap neg_part h.sum));
      fair = (
        inr (elim few [ inl same ↦ inl (ap pos same) | inr above ↦ inr (ap pos above) ]),
        h.fair,
      );
    }

share_out-IsShared :
    (average : ℕ) (is : List NameToReplicas) (left : Left)
    → wrap32 (pos average) ≡ pos average
    → (left.remainder ≡ 0) ⊎ (wrap32 (pos average +ℤ pos 1) ≡ pos (suc average))
    → free is ≤ left.subsets
    → IsShared average is left (share_out (pos average) is left)
share_out-IsShared average [] left exact next enough = record {
  taken = omega arith;
  remainder = omega arith;
  sum = eq_of_parts _ _ (omega int_laws);
  fair = tt;
}
share_out-IsShared average (i ∷ is) left exact next enough =
    give-IsShared average i is left (share_out (pos average) is left) exact next enough
      (share_out-IsShared average is left exact next (ground (arith, enough)))

wrap32_above : (n : ℕ) → suc n < 2 ^ 31 → wrap32 (pos n +ℤ pos 1) ≡ pos (suc n)
wrap32_above n small =
    let same : pos n +ℤ pos 1 ≡ pos (suc n) = eq_of_parts _ _ (omega int_laws) in
    rw same (wrap32_id (pos (suc n)) (record { above = omega arith; below = omega (arith, small) }))

-- The whole loop, with the quotient and the remainder that it is given.
share_out-total :
    (a n : ℕ) (is : List NameToReplicas)
    → a < 2 ^ 31
    → 0 < n
    → free is ≡ n
    → (allotted (share_out (pos (a / n)) is (record { remainder = a % n; subsets = n })).0
        ≡ own is +ℤ pos a)
      × All
          (IsFair (a / n))
          (share_out (pos (a / n)) is (record { remainder = a % n; subsets = n })).0
share_out-total a n is small some_free all =
    let fits = div-le_self a n in
    let whole = div-add-mod' a n in
    let below = mod-lt a some_free in
    let once = le-mul_of_pos_right (a / n) some_free in
    let left : Left = record { remainder = a % n; subsets = n } in
    let exact =
      wrap32_id (pos (a / n))
        (record { above = omega arith; below = omega (arith, fits, small) }) in
    let next : (a % n ≡ 0) ⊎ (wrap32 (pos (a / n) +ℤ pos 1) ≡ pos (suc (a / n))) =
      elim (Bool-cases (a % n == 0)) [
        | inl even ↦ inl (ground arith)
        | inr odd ↦ inr (wrap32_above (a / n) (ground (arith, whole, once, small)))
      ] in
    let h = share_out-IsShared (a / n) is left exact next (omega (arith, all)) in
    let each : free is * (a / n) ≡ n * (a / n) = ap (λ x. x * (a / n)) all in
    (
      eq_of_parts _ _ (
          omega (
            int_laws,
            ap pos_part h.sum,
            ap neg_part h.sum,
            h.remainder,
            all,
            below,
            each,
            div-add-mod a n,
          )),
      h.fair,
    )

-- Where numbers are specified for some subsets, but not for all, none of them negative, and together
-- no more than the replicas, which are an int32: the subsets are given exactly the replicas in all;
-- each that has a number is given it; and the others are given one average, or one more.
pub normal_allocate-total :
    (expected : ℤ) (limits : Replicas) (infos : List NameToReplicas)
    → IsInt32 expected
    → NonNegative limits
    → AreFresh infos
    → fixed limits infos ≤ℤ expected
    → count (is_specified limits) infos < length infos
    → (allotted (normal_allocate expected limits infos) ≡ expected)
      × All (IsHonored limits) (normal_allocate expected limits infos)
      × ((average : ℕ) × All (IsFair average) (normal_allocate expected limits infos))
unfolding normal_allocate quot_ℤ rem_ℤ
normal_allocate-total expected limits infos e h fresh le some_free =
    let n = length infos - count (is_specified limits) infos in
    let marked = mark limits infos in
    let known : (free marked ≡ n) × (0 < n) =
      let split = mark-free limits infos fresh in (omega (arith, split), omega arith) in
    let nonneg = fixed-nonneg limits infos h in
    let a = pos_part (expected -ℤ fixed limits infos) in
    let summed =
      specified_sum-fixed expected limits infos (pos 0) e h (omega arith) (omega (int_laws, le)) in
    let apart = parts_apart (expected -ℤ fixed limits infos) in
    let left : expected -ℤ specified_sum limits infos (pos 0) ≡ pos a =
      eq_of_parts _ _ (omega (int_laws, le, apart, ap pos_part summed, ap neg_part summed)) in
    let small : a < 2 ^ 31 = omega (int_laws, nonneg, apart, e.below) in
    let exact = wrap32_id (pos a) (record { above = omega arith; below = small }) in
    let more : (n == 0) ≡ false = ground (arith, known.1) in
    let (sum, fair) = share_out-total a n marked small known.1 known.0 in
    let own_sum = mark-own limits infos fresh in
    let total : allotted (normal_allocate expected limits infos) ≡ expected =
      rw (more, left, exact)
        (eq_of_parts _ _ (
          omega (
            int_laws,
            le,
            apart,
            ap pos_part sum,
            ap neg_part sum,
            ap pos_part own_sum,
            ap neg_part own_sum,
          ))) in
    (total, normal_allocate-IsHonored expected limits infos, (a / n, rw (more, left, exact) fair))
