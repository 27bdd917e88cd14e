-- ===== src/Util/Priority.antt =====
-- pkg/util/updatesort/priority_sort.go: which of two pods that wait for an update comes first.
pub mod Strict
mod Examples
use kruise.Prelude.{
  ℕ, suc, ◌+◌, ◌^◌, String, Bool, true, false, ◌&&◌, not, Option, none, some, List, [], ◌∷◌,
  if◌then◌else◌, ltb, leb, length, ◌==◌,
}
use kruise.Prelude.Int.{ℤ, pos, negsuc, ◌+ℤ◌, ltb_ℤ, eqb_ℤ}
use kruise.Prelude.Decimal.{codes, natural, below}
use kruise.Prelude.Assoc.{Assoc, lookup}

-- A weight, and what its label selector says of the labels of a pod: `none` if it is malformed.
pub record WeightTerm : Type 0 where
  pub weight : ℤ
  pub selects : Assoc String → Option Bool

pub record PriorityStrategy : Type 0 where
  pub order_priority : List String
  pub weight_priority : List WeightTerm

abbrev pub term_weight : ℤ → Option Bool → ℤ
term_weight w none = pos 0
term_weight w (some true) = w
term_weight w (some false) = pos 0

unfoldable pub get_pod_weight_priority : List WeightTerm → Assoc String → ℤ
get_pod_weight_priority [] labels = pos 0
get_pod_weight_priority (t ∷ terms) labels =
    term_weight t.weight (t.selects labels) +ℤ get_pod_weight_priority terms labels

abbrev is_digit : ℕ → Bool
is_digit c = leb b'0' c && leb c b'9'

abbrev all_digits : List ℕ → Bool
all_digits [] = true
all_digits (c ∷ cs) = is_digit c && all_digits cs

-- The digits at the end.
digits_suffix : List ℕ → List ℕ
digits_suffix [] = []
digits_suffix (c ∷ cs) = let rest = digits_suffix cs in if all_digits (c ∷ cs) then c ∷ cs else rest

abbrev or_zero : Option ℕ → ℕ
or_zero none = 0
or_zero (some n) = n

-- A number that an int64 does not hold counts as 0, as does no number.
unfoldable pub get_int_from_string_suffix : String → ℕ
unfolding digits_suffix
get_int_from_string_suffix v = or_zero (below (2 ^ 63) (natural (digits_suffix (codes v))))

-- The level is the place of the first key that is there, from `i` on, or -1.
unfoldable pub get_pod_order_priority : List String → Assoc String → ℕ → ℤ × ℕ
unfolding get_int_from_string_suffix
get_pod_order_priority [] labels i = (negsuc 0, 0)
get_pod_order_priority (key ∷ keys) labels i =
    let rest = get_pod_order_priority keys labels (i + 1) in
    elim (lookup key labels) [ none ↦ rest | some v ↦ (pos i, get_int_from_string_suffix v) ]

-- A higher weight comes first.
abbrev pub compare_weights : ℤ → ℤ → Bool → Bool
compare_weights a b default_val = if eqb_ℤ a b then default_val else ltb_ℤ b a

-- A lower level comes first, and then a higher number.
abbrev pub compare_orders : ℤ × ℕ → ℤ × ℕ → Bool → Bool
compare_orders (level_i, order_i) (level_j, order_j) default_val =
    if not (eqb_ℤ level_i level_j)
    then ltb_ℤ level_i level_j
    else if order_i == order_j
    then default_val
    else ltb order_j order_i

-- `compare`.
unfoldable pub compare : PriorityStrategy → Assoc String → Assoc String → Bool → Bool
compare s pod_i pod_j default_val =
    if ltb 0 (length s.weight_priority)
    then compare_weights (get_pod_weight_priority s.weight_priority pod_i)
        (get_pod_weight_priority s.weight_priority pod_j) default_val
    else if ltb 0 (length s.order_priority)
    then compare_orders (get_pod_order_priority s.order_priority pod_i 0)
        (get_pod_order_priority s.order_priority pod_j 0) default_val
    else default_val

-- The test by which `Sort` sorts: between equal priorities the higher index comes first.
unfoldable pub comes_first : PriorityStrategy → (ℕ → Assoc String) → ℕ → ℕ → Bool
unfolding compare
comes_first s labels i j = compare s (labels i) (labels j) (ltb j i)
