-- ===== src/Stateful/Ordinals/Range.antt =====
-- How many ordinals `getStatefulSetReplicasRange` goes through.
use kruise.Prelude.{
  ℕ, zero, suc, ◌+◌, ◌≤◌, ◌<◌, ◌≡◌, ◌⊎◌, refl, true, not, Option, some, List, [], ◌∷◌, arith,
  Bool-cases, inl, inr, length, count, to_ℕ,
}
use kruise.Prelude.Int.{ℤ, pos, pos_part, leb_ℤ}
use kruise.Stateful.Ordinals.{has_ordinal, replicas_from, get_stateful_set_replicas_range}

-- The number of ordinals below `n` that are not reserved.
abbrev pub free_below : List ℤ → ℕ → ℕ
free_below reserved zero = 0
free_below reserved (suc n) = free_below reserved n + to_ℕ (not (has_ordinal reserved n))

-- `n` is the least number below which `replicas` ordinals are not reserved.
abbrev pub IsRange : List ℤ → ℕ → ℕ → Type 0
IsRange reserved replicas n =
    (free_below reserved n ≡ replicas) × ((k : ℕ) → k < n → free_below reserved k < replicas)

-- The reserved ordinals from `n` on.
abbrev ahead : ℕ → List ℤ → ℕ
ahead n reserved = count (λ r. leb_ℤ (pos n) r) reserved

ahead-le : (n : ℕ) (reserved : List ℤ) → ahead (n + 1) reserved ≤ ahead n reserved
ahead-le n [] = omega arith
ahead-le n (r ∷ reserved) = ground (arith, ahead-le n reserved)

ahead-hit :
    (n : ℕ) (reserved : List ℤ)
    → has_ordinal reserved n ≡ true
    → ahead (n + 1) reserved < ahead n reserved
ahead-hit n [] h = absurd (ground arith)
ahead-hit n (r ∷ reserved) h = elim (Bool-cases (has_ordinal reserved n)) [
  | inl later ↦ ground (arith, ahead-hit n reserved later)
  | inr here ↦ ground (arith, here, ahead-le n reserved)
]

lt-split : (k n : ℕ) → k < n + 1 → (k < n) ⊎ (k ≡ n)
lt-split k n lt = ground arith

ahead-length : (n : ℕ) (reserved : List ℤ) → ahead n reserved ≤ length reserved
ahead-length n [] = omega arith
ahead-length n (r ∷ reserved) = ground (arith, ahead-length n reserved)

IsFound : List ℤ → ℕ → Option ℕ → Type 0
IsFound reserved replicas o = (n : ℕ) × (o ≡ some n) × IsRange reserved replicas n

free_below-suc :
    (reserved : List ℤ) (n : ℕ)
    → free_below reserved (n + 1) ≡ free_below reserved n + to_ℕ (not (has_ordinal reserved n))
free_below-suc reserved n = let same : n + 1 ≡ suc n = omega arith in rw same refl

replicas_from-IsFound :
    (fuel : ℕ) (reserved : List ℤ) (replicas left n : ℕ)
    → left + ahead n reserved < fuel
    → free_below reserved n + left ≡ replicas
    → ((k : ℕ) → k < n → free_below reserved k < replicas)
    → IsFound reserved replicas (replicas_from fuel reserved left n)
unfolding replicas_from IsFound
replicas_from-IsFound zero reserved replicas left n enough sum below =
    absurd (omega (arith, enough))
replicas_from-IsFound (suc fuel) reserved replicas zero n enough sum below =
    (n, refl, (omega (arith, sum), below))
replicas_from-IsFound (suc fuel) reserved replicas (suc left) n enough sum below =
    let below' : (k : ℕ) → k < n + 1 → free_below reserved k < replicas = λ k lt.
      elim (lt-split k n lt) [
        | inl earlier ↦ below k earlier
        | inr same ↦ rw same (omega (arith, sum))
      ] in
    elim (Bool-cases (has_ordinal reserved n)) [
      | inl hit ↦
          rw (hit, replicas_from)
            (replicas_from-IsFound fuel reserved replicas (suc left) (n + 1)
              (omega (arith, enough, ahead-hit n reserved hit))
              (ground (arith, sum, free_below-suc reserved n, hit)) below')
      | inr free ↦
          rw (free, replicas_from)
            (replicas_from-IsFound fuel reserved replicas left (n + 1)
              (omega (arith, enough, ahead-le n reserved))
              (ground (arith, sum, free_below-suc reserved n, free)) below')
    ]

-- The search for the replicas ends. It gives the least number of ordinals from 0 on that has as many
-- of them unreserved as there are to be replicas, whatever is reserved.
pub get_stateful_set_replicas_range-IsRange :
    (replicas : ℤ) (reserved : List ℤ)
    → (n : ℕ) × (get_stateful_set_replicas_range replicas reserved ≡ some n)
      × IsRange reserved (pos_part replicas) n
unfolding get_stateful_set_replicas_range IsFound
get_stateful_set_replicas_range-IsRange replicas reserved =
    replicas_from-IsFound (pos_part replicas + length reserved + 1) reserved (pos_part replicas)
      (pos_part replicas) 0 (omega (arith, ahead-length 0 reserved)) (omega arith)
      (λ k lt. absurd (omega (arith, lt)))
