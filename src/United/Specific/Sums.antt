-- ===== src/United/Specific/Sums.antt =====
-- The numbers that are specified for the subsets, and what they add up to.
use kruise.Prelude.{
  ℕ, ◌+◌, ◌≡◌, refl, ap, ◌∙◌, arith, false, not, Option-cases, List, [], ◌∷◌, All, inl, inr, length,
  count, if◌then◌else◌,
}
use kruise.Prelude.Int.{
  ℤ, pos, pos_part, neg_part, ◌+ℤ◌, ◌≤ℤ◌, wrap32, IsInt32, int_laws, eq_of_parts,
}
use kruise.Prelude.Assoc.{lookup}
use kruise.United.Sums.{Replicas, NonNegative, at, at_bounds, value_or_zero}
use kruise.United.Elastic.Room.{wrap32_between}
use kruise.United.Specific.{NameToReplicas, is_specified, mark, specified_sum}

-- The replicas of the subsets in all, and those of the subsets that are marked.
abbrev pub allotted : List NameToReplicas → ℤ
allotted [] = pos 0
allotted (i ∷ is) = i.replicas +ℤ allotted is

abbrev pub own : List NameToReplicas → ℤ
own [] = pos 0
own (i ∷ is) = (if i.specified then i.replicas else pos 0) +ℤ own is

-- The subsets that are not marked.
abbrev pub free : List NameToReplicas → ℕ
free is = count (λ i. not i.specified) is

-- What is specified for the subsets in all.
abbrev pub fixed : Replicas → List NameToReplicas → ℤ
fixed limits [] = pos 0
fixed limits (i ∷ is) = at i.subset_name limits +ℤ fixed limits is

abbrev pub AreFresh : List NameToReplicas → Type 0
AreFresh is = All (λ (i : NameToReplicas). i.specified ≡ false) is

pub fixed-nonneg :
    (limits : Replicas) (is : List NameToReplicas) → NonNegative limits → pos 0 ≤ℤ fixed limits is
fixed-nonneg limits [] h = omega arith
fixed-nonneg limits (i ∷ is) h =
    omega (int_laws, (at_bounds i.subset_name limits h).0, fixed-nonneg limits is h)

pub mark-own :
    (limits : Replicas) (is : List NameToReplicas)
    → AreFresh is
    → own (mark limits is) ≡ fixed limits is
mark-own limits [] f = refl
mark-own limits (i ∷ is) f = elim (Option-cases (lookup i.subset_name limits)) [
  | inl unset ↦ rw (unset, f.0, mark-own limits is f.1) refl
  | inr (n, here) ↦ rw (here, mark-own limits is f.1) refl
]

pub mark-free :
    (limits : Replicas) (is : List NameToReplicas)
    → AreFresh is
    → free (mark limits is) + count (is_specified limits) is ≡ length is
mark-free limits [] f = refl
mark-free limits (i ∷ is) f = elim (Option-cases (lookup i.subset_name limits)) [
  | inl unset ↦ rw (unset, f.0) (omega (arith, mark-free limits is f.1))
  | inr (n, here) ↦ rw here (omega (arith, mark-free limits is f.1))
]

-- The sum of the specified replicas does not leave 32 bits.
pub specified_sum-fixed :
    (expected : ℤ) (limits : Replicas) (is : List NameToReplicas) (n : ℤ)
    → IsInt32 expected
    → NonNegative limits
    → pos 0 ≤ℤ n
    → (n +ℤ fixed limits is) ≤ℤ expected
    → specified_sum limits is n ≡ n +ℤ fixed limits is
specified_sum-fixed expected limits [] n e h low le = eq_of_parts _ _ (omega int_laws)
specified_sum-fixed expected limits (i ∷ is) n e h low le =
    let v = at i.subset_name limits in
    let bound = (at_bounds i.subset_name limits h).0 in
    let rest = fixed-nonneg limits is h in
    elim (Option-cases (lookup i.subset_name limits)) [
      | inl unset ↦
          let zero_here : v ≡ pos 0 = ap value_or_zero unset in
          let le' : (n +ℤ fixed limits is) ≤ℤ expected =
            omega (int_laws, le, ap pos_part zero_here, ap neg_part zero_here) in
          rw unset (
            specified_sum-fixed expected limits is n e h low le' ∙ eq_of_parts _ _ (omega int_laws))
      | inr (m, here) ↦
          let same : v ≡ m = ap value_or_zero here in
          let low' : pos 0 ≤ℤ (n +ℤ m) =
            omega (int_laws, low, bound, ap pos_part same, ap neg_part same) in
          let le' : ((n +ℤ m) +ℤ fixed limits is) ≤ℤ expected =
            omega (int_laws, le, ap pos_part same, ap neg_part same) in
          let exact : wrap32 (n +ℤ m) ≡ n +ℤ m =
            wrap32_between _ expected low' (omega (int_laws, le', rest)) e in
          rw (here, exact)
            (specified_sum-fixed expected limits is (n +ℤ m) e h low' le'
              ∙ eq_of_parts _ _ (omega int_laws))
    ]
