-- ===== src/Expectations/Update/Examples.antt =====
-- Runs of the cache of update expectations, and the theorems at them.
use kruise.Prelude.{
  ◌≡◌, refl, ◌↔◌, String, str_eq, Bool, true, false, Option, none, some, List, [], ◌∷◌,
}
use kruise.Prelude.Assoc.{lookup}
use kruise.Expectations.Update.{
  Object, Cache, expect_updated, observe_updated, satisfied_expectations,
}
use kruise.Expectations.Update.History.{
  Call, expects, observes, asks, run, awaited, satisfied-awaited,
}

-- An adapter that compares one label with the revision.
abbrev hash_of : Option String → String → Bool
hash_of none revision = false
hash_of (some h) revision = str_eq h revision

abbrev equal : String → Object → String → Bool
equal key obj revision = hash_of (lookup "hash" obj.labels) revision

abbrev pod : String → Object
pod hash = record { namespace = "ns"; name = "p"; labels = ("hash", hash) ∷ [] }

abbrev waiting : Cache
waiting =
    (
      "cs",
      record { revision = "r2"; objs_updated = "ns/p" ∷ []; first_unsatisfied_timestamp = none },
    )
    ∷ []

old_pod : observe_updated equal waiting "cs" "r2" (pod "r1") ≡ waiting
unfolding observe_updated
old_pod = refl

new_pod : observe_updated equal waiting "cs" "r2" (pod "r2") ≡ []
unfolding observe_updated
new_pod = refl

-- A pod is expected and then seen with its new hash; another one is still to be seen.
abbrev history : List Call
history =
    observes "cs" "r2" (pod "r2")
    ∷ asks 3 "cs" "r2"
    ∷ expects "cs" "r2" (record (pod "r1") { name = "q" })
    ∷ expects "cs" "r2" (pod "r1")
    ∷ []

one_is_left : (satisfied_expectations 4 (run equal history) "cs" "r2").dirty ≡ "ns/q" ∷ []
unfolding run expect_updated observe_updated satisfied_expectations
one_is_left = refl

satisfied-awaited_example :
    ((satisfied_expectations 4 (run equal history) "cs" "r2").satisfied ≡ true)
    ↔ ((k : String) → awaited equal history "cs" "r2" k ≡ false)
satisfied-awaited_example = satisfied-awaited equal 4 history "cs" "r2"
