-- ===== src/Stateful/Names/RoundTrip.antt =====
-- The name of a pod gives back its StatefulSet and its ordinal.
use kruise.Prelude.{
  ℕ, zero, suc, ◌+◌, ◌-◌, ◌*◌, ◌/◌, ◌%◌, ◌^◌, ◌<◌, ◌≡◌, refl, sym, ap, ◌∙◌, true, ◌&&◌, none, some,
  List, [], ◌∷◌, ◌++◌, arith, Bool-cases, inl, inr, ltb, leb,
}
use kruise.Prelude.Int.{pos}
use kruise.Prelude.Decimal.{digits, natural, below}
use kruise.Stateful.Names.{
  decimal_onto, decimal, get_pod_name, split_at_dash, all_digits, is_number,
  get_parent_name_and_ordinal,
}

digits-digit :
    (d acc value : ℕ) (rest : List ℕ)
    → d < 10
    → acc * 10 + d ≡ value
    → digits ((b'0' + d) ∷ rest) acc ≡ digits rest value
unfolding digits
digits-digit d acc value rest lt e =
    let fits : (leb b'0' (b'0' + d) && leb (b'0' + d) b'9') ≡ true = ground (arith, lt) in
    let same : acc * 10 + (b'0' + d - b'0') ≡ value = omega (arith, e) in rw (fits, same) refl

digits-decimal_onto :
    (fuel n : ℕ) (rest : List ℕ) → n < fuel → digits (decimal_onto fuel n rest) 0 ≡ digits rest n
unfolding decimal_onto digits
digits-decimal_onto zero n rest lt = absurd (omega (arith, lt))
digits-decimal_onto (suc fuel) n rest lt = elim (Bool-cases (ltb n 10)) [
  | inl last ↦
      rw (last, decimal_onto) (digits-digit n 0 n rest (ground (arith, last)) (omega arith))
  | inr more ↦
      rw (more, decimal_onto)
        (digits-decimal_onto fuel (n / 10) ((b'0' + n % 10) ∷ rest) (ground (arith, lt, more))
          ∙ digits-digit (n % 10) (n / 10) n rest (omega arith) (omega arith))
]

all_digits-decimal_onto :
    (fuel n : ℕ) (rest : List ℕ)
    → all_digits rest ≡ true
    → all_digits (decimal_onto fuel n rest) ≡ true
unfolding decimal_onto
all_digits-decimal_onto zero n rest h = h
all_digits-decimal_onto (suc fuel) n rest h = elim (Bool-cases (ltb n 10)) [
  | inl last ↦ rw (last, decimal_onto) (ground (arith, h))
  | inr more ↦
      rw (more, decimal_onto)
        (all_digits-decimal_onto fuel (n / 10) ((b'0' + n % 10) ∷ rest) (ground (arith, h)))
]

-- Digits have no dash among them.
split_at_dash-none : (ds : List ℕ) → all_digits ds ≡ true → split_at_dash ds ≡ none
unfolding split_at_dash
split_at_dash-none [] h = refl
split_at_dash-none (d ∷ ds) h = ground (arith, split_at_dash-none ds)

split_at_dash-append :
    (name ds : List ℕ) → all_digits ds ≡ true → split_at_dash (name ++ b'-' ∷ ds) ≡ some (name, ds)
unfolding split_at_dash
split_at_dash-append [] ds h = rw (split_at_dash-none ds h) refl
split_at_dash-append (c ∷ name) ds h = rw (split_at_dash-append name ds h) refl

-- There is a digit at least.
abbrev IsCons : List ℕ → Type 0
IsCons ds = (c : ℕ) × (cs : List ℕ) × (ds ≡ c ∷ cs)

decimal_onto_lem : (fuel n c : ℕ) (cs : List ℕ) → IsCons (decimal_onto fuel n (c ∷ cs))
unfolding decimal_onto
decimal_onto_lem zero n c cs = (c, cs, refl)
decimal_onto_lem (suc fuel) n c cs = elim (Bool-cases (ltb n 10)) [
  | inl last ↦ rw (last, decimal_onto) (b'0' + n, c ∷ cs, refl)
  | inr more ↦ rw (more, decimal_onto) (decimal_onto_lem fuel (n / 10) (b'0' + n % 10) (c ∷ cs))
]

decimal_onto-IsCons : (fuel n : ℕ) (rest : List ℕ) → IsCons (decimal_onto (suc fuel) n rest)
unfolding decimal_onto
decimal_onto-IsCons fuel n rest = elim (Bool-cases (ltb n 10)) [
  | inl last ↦ rw (last, decimal_onto) (b'0' + n, rest, refl)
  | inr more ↦ rw (more, decimal_onto) (decimal_onto_lem fuel (n / 10) (b'0' + n % 10) rest)
]

natural_lem : (ds : List ℕ) (c : ℕ) (cs : List ℕ) → ds ≡ c ∷ cs → natural ds ≡ digits ds 0
unfolding natural
natural_lem ds c cs e = rw e refl

is_number_lem :
    (ds : List ℕ) (c : ℕ) (cs : List ℕ) → ds ≡ c ∷ cs → all_digits ds ≡ true → is_number ds ≡ true
is_number_lem ds c cs e h = rw e (ap all_digits (sym e) ∙ h)

natural-decimal : (n : ℕ) → natural (decimal n) ≡ some n
unfolding decimal digits
natural-decimal n =
    let (c, cs, e) = decimal_onto-IsCons n n [] in
    natural_lem (decimal n) c cs e ∙ digits-decimal_onto (suc n) n [] (omega arith)

is_number-decimal : (n : ℕ) → is_number (decimal n) ≡ true
unfolding decimal
is_number-decimal n =
    let (c, cs, e) = decimal_onto-IsCons n n [] in
    is_number_lem (decimal n) c cs e (all_digits-decimal_onto (suc n) n [] refl)

below-some : (limit n : ℕ) → n < limit → below limit (some n) ≡ some n
unfolding below
below-some limit n lt = ground (arith, lt)

all_digits-decimal : (n : ℕ) → all_digits (decimal n) ≡ true
unfolding decimal
all_digits-decimal n = all_digits-decimal_onto (suc n) n [] refl

read_name :
    (t name ds : List ℕ) (n : ℕ)
    → split_at_dash t ≡ some (name, ds)
    → is_number ds ≡ true
    → below (2 ^ 31) (natural ds) ≡ some n
    → get_parent_name_and_ordinal t ≡ (name, pos n)
unfolding get_parent_name_and_ordinal
read_name t name ds n e f g = rw (e, f, g, get_parent_name_and_ordinal) refl

-- For an ordinal that an int32 holds: the name of the pod gives back the name of its StatefulSet,
-- whatever that is, and its ordinal.
pub get_parent_name_and_ordinal-get_pod_name :
    (set_name : List ℕ) (ordinal : ℕ)
    → ordinal < 2 ^ 31
    → get_parent_name_and_ordinal (get_pod_name set_name ordinal) ≡ (set_name, pos ordinal)
unfolding get_pod_name
get_parent_name_and_ordinal-get_pod_name set_name ordinal lt =
    let ds = decimal ordinal in
    read_name (set_name ++ b'-' ∷ ds) set_name ds ordinal
      (split_at_dash-append set_name ds (all_digits-decimal ordinal)) (is_number-decimal ordinal)
      (rw (natural-decimal ordinal) (below-some (2 ^ 31) ordinal lt))
