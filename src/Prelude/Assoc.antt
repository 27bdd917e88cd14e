-- ===== src/Prelude/Assoc.antt =====
-- A Go map with string keys, as an association list in some order of iteration.
use kruise.Prelude.Tests.{if◌then◌else◌}
use Prim.Native.String.{String}
use text.Mathlib.Text.{◌==◌ as str_eq}
use text.Mathlib.TextEquality.{eq_iff}
use mathlib.Core.Path.{◌≡◌, refl}
use mathlib.Core.Bool.{Bool, true, false}
use mathlib.Core.Option.{Option, none, some}
use mathlib.Core.List.{List, [], ◌∷◌}
use native.Mathlib.Omega.{arith}

abbrev pub Assoc {ℓ} : Type ℓ → Type ℓ
Assoc V = List (String × V)

module _ {ℓ} {V : Type ℓ} where
  abbrev pub lookup : String → Assoc V → Option V
  lookup k [] = none
  lookup k ((j, v) ∷ m) = if str_eq j k then some v else lookup k m

  -- `m[k] = v`
  abbrev pub insert : String → V → Assoc V → Assoc V
  insert k v [] = (k, v) ∷ []
  insert k v ((j, w) ∷ m) = if str_eq j k then (k, v) ∷ m else (j, w) ∷ insert k v m

  -- `delete(m, k)`
  abbrev pub erase : String → Assoc V → Assoc V
  erase k [] = []
  erase k ((j, w) ∷ m) = let rest = erase k m in if str_eq j k then rest else (j, w) ∷ rest

  pub lookup-insert :
      (k j : String) (v : V) (m : Assoc V)
      → lookup j (insert k v m) ≡ (if str_eq k j then some v else lookup j m)
  lookup-insert k j v [] = refl
  lookup-insert k j v ((i, w) ∷ m) =
      ground (arith, eq_iff k j, eq_iff i k, eq_iff i j, lookup-insert k j v m)

  pub lookup-erase :
      (k j : String) (m : Assoc V)
      → lookup j (erase k m) ≡ (if str_eq k j then none else lookup j m)
  lookup-erase k j [] = ground arith
  lookup-erase k j ((i, w) ∷ m) =
      ground (arith, eq_iff k j, eq_iff i k, eq_iff i j, lookup-erase k j m)

-- A set of strings: a map to nothing.
abbrev pub Names : Type 0
Names = List String

abbrev pub has : String → Names → Bool
has k [] = false
has k (j ∷ m) = if str_eq j k then true else has k m

abbrev pub add : String → Names → Names
add k m = if has k m then m else k ∷ m

abbrev pub remove : String → Names → Names
remove k [] = []
remove k (j ∷ m) = let rest = remove k m in if str_eq j k then rest else j ∷ rest

pub has-add : (k j : String) (m : Names) → has j (add k m) ≡ (if str_eq k j then true else has j m)
has-add k j m = ground (arith, eq_iff k j)

pub has-remove :
    (k j : String) (m : Names) → has j (remove k m) ≡ (if str_eq k j then false else has j m)
has-remove k j [] = ground arith
has-remove k j (i ∷ m) = ground (arith, eq_iff k j, eq_iff i k, eq_iff i j, has-remove k j m)
