-- ===== src/Spread/Found.antt =====
-- What each subset is missing: where a subset is found, and its status written.
use kruise.Prelude.{
  ℕ, suc, ◌+◌, ◌^◌, ◌<◌, ◌≡◌, inl, inr, refl, String, str_eq, str_eq_iff, str_eq_refl, Bool, true,
  false, some, List, [], ◌∷◌, arith, Bool-cases, if◌then◌else◌,
}
use mathlib.Core.Path.{subst}
use kruise.Prelude.Int.{ℤ, negsuc, pos_part, ◌≤ℤ◌}
use kruise.Spread.{
  SubsetStatus, write_subset, get_suitable_subset, get_specific_subset, is_suitable,
}

-- How many pods a subset still takes, by its name; what has no limit, or is not there, counts as 0.
abbrev pub room : String → List SubsetStatus → ℕ
room k [] = 0
room k (s ∷ ss) = if str_eq s.name k then pos_part s.missing_replicas else room k ss

abbrev pub names : String → List SubsetStatus → Bool
names k [] = false
names k (s ∷ ss) = if str_eq s.name k then true else names k ss

-- At least -1 is missing, and `more` besides are within an int32.
pub record HasRange (more : ℕ) (missing : ℤ) : Type 0 where
  pub low : negsuc 0 ≤ℤ missing
  pub high : pos_part missing + more < 2 ^ 31

-- The names differ, and every subset could be missing `more` replicas besides.
abbrev pub IsSpread : ℕ → List SubsetStatus → Type 0
IsSpread more [] = Unit
IsSpread more (s ∷ ss) =
    HasRange more s.missing_replicas × (names s.name ss ≡ false) × IsSpread more ss

pub IsSpread-less : (more : ℕ) (ss : List SubsetStatus) → IsSpread (suc more) ss → IsSpread more ss
IsSpread-less more [] h = tt
IsSpread-less more (s ∷ ss) h =
    (record { low = h.0.low; high = omega (arith, h.0.high) }, h.1, IsSpread-less more ss h.2)

-- A subset that was found among others.
abbrev pub IsFound : ℕ → List SubsetStatus → SubsetStatus → Type 0
IsFound more ss s =
    (room s.name ss ≡ pos_part s.missing_replicas)
    × (names s.name ss ≡ true)
    × HasRange more s.missing_replicas

head-IsFound :
    (more : ℕ) (t : SubsetStatus) (ss : List SubsetStatus)
    → HasRange more t.missing_replicas
    → IsFound more (t ∷ ss) t
head-IsFound more t ss h = rw (str_eq_refl t.name) (refl, refl, h)

later-IsFound :
    (more : ℕ) (t : SubsetStatus) (ss : List SubsetStatus) (s : SubsetStatus)
    → names t.name ss ≡ false
    → IsFound more ss s
    → IsFound more (t ∷ ss) s
later-IsFound more t ss s new (r, n, low) = elim (Bool-cases (str_eq t.name s.name)) [
  | inl same ↦ absurd (ground (arith, (str_eq_iff t.name s.name).0 same, new, n))
  | inr other ↦ rw other (r, n, low)
]

pub suitable-IsFound :
    (more : ℕ) (ss : List SubsetStatus)
    → IsSpread more ss
    → (s : SubsetStatus) → get_suitable_subset ss ≡ some s
    → IsFound more ss s × (is_suitable s ≡ true)
unfolding get_suitable_subset
suitable-IsFound more [] h s e = cc
suitable-IsFound more (t ∷ ss) h s e = elim (Bool-cases (is_suitable t)) [
  | inl on ↦
      let same : t ≡ s = ground (arith, e, on) in
      subst (λ x. IsFound more (t ∷ ss) x × (is_suitable x ≡ true)) same
        (head-IsFound more t ss h.0, on)
  | inr off ↦
      let (f, on) = suitable-IsFound more ss h.2 s (ground (arith, e, off)) in
      (later-IsFound more t ss s h.1 f, on)
]

pub specific-IsFound :
    (more : ℕ) (ss : List SubsetStatus)
    → IsSpread more ss
    → (name : String) (s : SubsetStatus) → get_specific_subset ss name ≡ some s
    → IsFound more ss s
unfolding get_specific_subset
specific-IsFound more [] h name s e = cc
specific-IsFound more (t ∷ ss) h name s e = elim (Bool-cases (str_eq name t.name)) [
  | inl on ↦
      let same : t ≡ s = ground (arith, e, on) in
      subst (λ x. IsFound more (t ∷ ss) x) same (head-IsFound more t ss h.0)
  | inr off ↦
      later-IsFound more t ss s h.1 (specific-IsFound more ss h.2 name s (ground (arith, e, off)))
]

pub write-room :
    (n : SubsetStatus) (ss : List SubsetStatus) (k : String)
    → names n.name ss ≡ true
    → room k (write_subset n ss)
      ≡ (if str_eq n.name k then pos_part n.missing_replicas else room k ss)
unfolding write_subset
write-room n [] k h = cc
write-room n (s ∷ ss) k h =
    ground
      (arith, str_eq_iff s.name n.name, str_eq_iff s.name k, str_eq_iff n.name k, write-room n ss k)

write-names :
    (n : SubsetStatus) (ss : List SubsetStatus) (k : String)
    → names k (write_subset n ss) ≡ names k ss
unfolding write_subset
write-names n [] k = refl
write-names n (s ∷ ss) k =
    ground (
      arith,
      str_eq_iff s.name n.name,
      str_eq_iff s.name k,
      str_eq_iff n.name k,
      write-names n ss k,
    )

pub write-IsSpread :
    (more : ℕ) (n : SubsetStatus) (ss : List SubsetStatus)
    → HasRange more n.missing_replicas
    → IsSpread more ss
    → IsSpread more (write_subset n ss)
unfolding write_subset
write-IsSpread more n [] low h = tt
write-IsSpread more n (s ∷ ss) low h = elim (Bool-cases (str_eq s.name n.name)) [
  | inl same ↦ rw same (low, ground (arith, str_eq_iff s.name n.name, h.1), h.2)
  | inr other ↦
      rw other (h.0, ground (arith, write-names n ss s.name, h.1), write-IsSpread more n ss low h.2)
]
