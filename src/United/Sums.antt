-- ===== src/United/Sums.antt =====
-- The sum of the values of a Go map of replicas.
use kruise.Prelude.{
  ◌≡◌, ap, String, str_eq, Bool, true, false, Option, none, some, [], ◌∷◌, arith, if◌then◌else◌,
}
use kruise.Prelude.Int.{ℤ, pos, pos_part, neg_part, ◌+ℤ◌, ◌≤ℤ◌, +ℤ_parts, int_laws}
use kruise.Prelude.Assoc.{Assoc, lookup, insert}

abbrev pub Replicas : Type 0
Replicas = Assoc ℤ

abbrev pub value_or_zero : Option ℤ → ℤ
value_or_zero none = pos 0
value_or_zero (some v) = v

-- Reading a missing key gives 0.
abbrev pub at : String → Replicas → ℤ
at k m = value_or_zero (lookup k m)

abbrev pub total : Replicas → ℤ
total [] = pos 0
total ((k, v) ∷ m) = v +ℤ total m

-- One step of `total-insert`, on the outcome of the comparison of the keys.
total-step :
    (b : Bool) (k j : String) (v w : ℤ) (m rest : Replicas) (here : Option ℤ)
    → total rest +ℤ value_or_zero here ≡ total m +ℤ v
    → total (if b then (k, v) ∷ m else (j, w) ∷ rest) +ℤ value_or_zero (if b then some w else here)
      ≡ (w +ℤ total m) +ℤ v
total-step true k j v w m rest here h = omega int_laws
total-step false k j v w m rest here h = omega (int_laws, ap pos_part h, ap neg_part h)

pub total-insert :
    (k : String) (v : ℤ) (m : Replicas) → total (insert k v m) +ℤ at k m ≡ total m +ℤ v
total-insert k v [] = omega int_laws
total-insert k v ((j, w) ∷ m) =
    total-step (str_eq j k) k j v w m (insert k v m) (lookup k m) (total-insert k v m)

-- No value is negative.
abbrev pub NonNegative : Replicas → Type 0
NonNegative [] = Unit
NonNegative ((k, v) ∷ m) = (pos 0 ≤ℤ v) × NonNegative m

pub insert-NonNegative :
    (k : String) (v : ℤ) (m : Replicas) → pos 0 ≤ℤ v → NonNegative m → NonNegative (insert k v m)
insert-NonNegative k v [] h n = (h, tt)
insert-NonNegative k v ((j, w) ∷ m) h n = ground (arith, insert-NonNegative k v m h n.1)

pub at_bounds :
    (k : String) (m : Replicas) → NonNegative m → (pos 0 ≤ℤ at k m) × (at k m ≤ℤ total m)
at_bounds k [] n = ground arith
at_bounds k ((j, w) ∷ m) n = ground (arith, +ℤ_parts w (total m), at_bounds k m n.1)
