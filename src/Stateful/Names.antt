-- ===== src/Stateful/Names.antt =====
-- The names of the pods of a StatefulSet, of pkg/controller/statefulset/stateful_set_utils.go. A text
-- is the list of its code points; the name of an API object has no line break, which the regular
-- expression would treat apart.
pub mod RoundTrip
mod Examples
use kruise.Prelude.{
  ℕ, zero, suc, ◌+◌, ◌/◌, ◌%◌, ◌^◌, Bool, true, false, ◌&&◌, Option, none, some, List, [], ◌∷◌,
  ◌++◌, if◌then◌else◌, ◌==◌, ltb, leb,
}
use kruise.Prelude.Int.{ℤ, pos, negsuc, leb_ℤ, pos_part}
use kruise.Prelude.Assoc.{Assoc}
use kruise.Prelude.Decimal.{natural, below}

-- `%d` of package fmt, for a number that is not negative: the digits of `n` before those of `rest`.
decimal_onto : ℕ → ℕ → List ℕ → List ℕ
decimal_onto zero n rest = rest
decimal_onto (suc fuel) n rest =
    let more = decimal_onto fuel (n / 10) ((b'0' + n % 10) ∷ rest) in
    if ltb n 10 then (b'0' + n) ∷ rest else more

-- A number has no more digits than its value and one.
unfoldable pub decimal : ℕ → List ℕ
unfolding decimal_onto
decimal n = decimal_onto (suc n) n []

unfoldable pub get_pod_name : List ℕ → ℕ → List ℕ
unfolding decimal
get_pod_name set_name ordinal = set_name ++ b'-' ∷ decimal ordinal

unfoldable pub get_persistent_volume_claim_name : List ℕ → List ℕ → ℕ → List ℕ
unfolding decimal
get_persistent_volume_claim_name claim_name set_name ordinal =
    claim_name ++ b'-' ∷ set_name ++ b'-' ∷ decimal ordinal

-- What stands before and behind the last "-".
split_at_dash : List ℕ → Option (List ℕ × List ℕ)
split_at_dash [] = none
split_at_dash (c ∷ cs) = elim (split_at_dash cs) [
  | some (before, behind) ↦ some (c ∷ before, behind)
  | none ↦ if c == b'-' then some ([], cs) else none
]

abbrev all_digits : List ℕ → Bool
all_digits [] = true
all_digits (c ∷ cs) = leb b'0' c && leb c b'9' && all_digits cs

abbrev pub is_number : List ℕ → Bool
is_number [] = false
is_number (c ∷ cs) = all_digits (c ∷ cs)

-- -1 where the number does not fit.
abbrev pub ordinal_or_none : Option ℕ → ℤ
ordinal_or_none none = negsuc 0
ordinal_or_none (some n) = pos n

-- `getParentNameAndOrdinal`, for the pattern `(.*)-([0-9]+)$`: behind its "-" there are digits only,
-- so that it is the last one.
unfoldable pub get_parent_name_and_ordinal : List ℕ → List ℕ × ℤ
unfolding split_at_dash
get_parent_name_and_ordinal pod_name = elim (split_at_dash pod_name) [
  | none ↦ ([], negsuc 0)
  | some (parent, number) ↦
      if is_number number
      then (parent, ordinal_or_none (below (2 ^ 31) (natural number)))
      else ([], negsuc 0)
]

unfoldable pub get_parent_name : List ℕ → List ℕ
get_parent_name pod_name = (get_parent_name_and_ordinal pod_name).0

unfoldable pub get_ordinal : List ℕ → ℤ
get_ordinal pod_name = (get_parent_name_and_ordinal pod_name).1

abbrev same_text : List ℕ → List ℕ → Bool
same_text [] [] = true
same_text [] (d ∷ ds) = false
same_text (c ∷ cs) [] = false
same_text (c ∷ cs) (d ∷ ds) = (c == d) && same_text cs ds

unfoldable pub is_member_of : List ℕ → List ℕ → Bool
is_member_of set_name pod_name = same_text (get_parent_name pod_name) set_name

-- What the identity of a pod is read from.
pub record Identity : Type 0 where
  pub name : List ℕ
  pub namespace : List ℕ
  pub pod_name_label : List ℕ

unfoldable pub identity_matches : List ℕ → List ℕ → Identity → Bool
identity_matches set_name set_namespace pod =
    let (parent, ordinal) = get_parent_name_and_ordinal pod.name in
    leb_ℤ (pos 0) ordinal
    && same_text set_name parent
    && same_text pod.name (get_pod_name set_name (pos_part ordinal))
    && same_text pod.namespace set_namespace
    && same_text pod.pod_name_label pod.name
