-- ===== src/United/Specific/Shares.antt =====
-- What the specific allocator gives to the subsets.
use kruise.Prelude.{
  ◌-◌, ◌≡◌, refl, arith, true, some, Option-cases, List, [], ◌∷◌, All, Bool-cases, inl, inr, ◌==◌,
  length, count,
}
use kruise.Prelude.Int.{ℤ}
use kruise.Prelude.Assoc.{lookup}
use kruise.United.Sums.{Replicas}
use kruise.United.Specific.{
  NameToReplicas, Left, is_specified, mark, give, share_out, normal_allocate,
}

-- If a number is specified for the subset, it has that number.
pub record IsHonored (limits : Replicas) (i : NameToReplicas) : Type 0 where
  pub marked : (n : ℤ) → lookup i.subset_name limits ≡ some n → i.specified ≡ true
  pub given : (n : ℤ) → lookup i.subset_name limits ≡ some n → i.replicas ≡ n

mark-IsHonored :
    (limits : Replicas) (is : List NameToReplicas) → All (IsHonored limits) (mark limits is)
mark-IsHonored limits [] = tt
mark-IsHonored limits (i ∷ is) = elim (Option-cases (lookup i.subset_name limits)) [
  | inl free ↦ rw free (
    record { marked = λ n e. ground arith; given = λ n e. ground arith },
    mark-IsHonored limits is,
  )
  | inr (m, fixed) ↦ rw fixed (
    record { marked = λ n e. ground arith; given = λ n e. ground arith },
    mark-IsHonored limits is,
  )
]

give-IsHonored :
    (limits : Replicas) (average : ℤ) (i : NameToReplicas) (left : Left)
    → IsHonored limits i
    → IsHonored limits (give average i left).0
give-IsHonored limits average i left h = elim (Bool-cases (left.subsets == 0)) [
  | inl over ↦ rw over h
  | inr more ↦ elim (Bool-cases i.specified) [
    | inl fixed ↦ rw (more, fixed) record { marked = λ n e. refl; given = λ n e. h.given n e }
    | inr free ↦ elim (Bool-cases (left.remainder == 0)) [
      | inl even ↦
          rw (more, free, even)
            record {
              marked = λ n e. ground (arith, h.marked n e);
              given = λ n e. ground (arith, h.marked n e);
            }
      | inr odd ↦
          rw (more, free, odd)
            record {
              marked = λ n e. ground (arith, h.marked n e);
              given = λ n e. ground (arith, h.marked n e);
            }
    ]
  ]
]

share_out-IsHonored :
    (limits : Replicas) (average : ℤ) (is : List NameToReplicas) (left : Left)
    → All (IsHonored limits) is
    → All (IsHonored limits) (share_out average is left).0
share_out-IsHonored limits average [] left h = tt
share_out-IsHonored limits average (i ∷ is) left h =
    (give-IsHonored limits average i _ h.0, share_out-IsHonored limits average is left h.1)

-- Whatever replicas are expected and however the subsets are sorted: each subset for which a number
-- is specified is given exactly that number, and the loop that shares out the rest leaves it alone.
pub normal_allocate-IsHonored :
    (expected : ℤ) (limits : Replicas) (infos : List NameToReplicas)
    → All (IsHonored limits) (normal_allocate expected limits infos)
unfolding normal_allocate
normal_allocate-IsHonored expected limits infos =
    elim (Bool-cases (length infos - count (is_specified limits) infos == 0)) [
      | inl all ↦ rw all (mark-IsHonored limits infos)
      | inr some_left ↦
          rw some_left
            (share_out-IsHonored limits _ (mark limits infos) _ (mark-IsHonored limits infos))
    ]
