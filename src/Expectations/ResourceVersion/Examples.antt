-- ===== src/Expectations/ResourceVersion/Examples.antt =====
-- Runs of the store of resource versions, and the theorems at them.
use kruise.Prelude.{◌≡◌, refl, ◌↔◌, true, none, [], ◌∷◌, ◌≤◌, All}
use kruise.Prelude.Decimal.{parse_uint}
use kruise.Expectations.ResourceVersion.{
  Store, ObjectCacheVersions, is_resource_version_newer, expect, is_satisfied,
}
use kruise.Expectations.ResourceVersion.Versions.{object, value, expects, is_satisfied-expects}

abbrev held : ObjectCacheVersions
held = record { version = "7"; first_unsatisfied_timestamp = none }

abbrev store : Store
store = ("pod-a", held) ∷ []

expect_order :
    (expect (expect [] (object "u" "10")) (object "u" "9"))
    ≡ ("u", record { version = "10"; first_unsatisfied_timestamp = none }) ∷ []
unfolding expect is_resource_version_newer parse_uint
expect_order = refl

is_satisfied-expects_example :
    ((is_satisfied 5 (expects "u" ("10" ∷ "9" ∷ []) []) (object "u" "12")).satisfied ≡ true)
    ↔ All (λ x. value x ≤ value "12") ("10" ∷ "9" ∷ [])
is_satisfied-expects_example =
    is_satisfied-expects 5 [] "u" "10" "12" ("9" ∷ []) refl
      (unfold parse_uint in (refl, (refl, tt))) (unfold parse_uint in refl)
