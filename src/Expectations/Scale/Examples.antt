-- ===== src/Expectations/Scale/Examples.antt =====
-- Runs of the cache of scale expectations, and the theorems at them.
use kruise.Prelude.{◌≡◌, refl, ◌↔◌, String, true, false, List, [], ◌∷◌}
use kruise.Expectations.Scale.{create, delete, expect_scale, observe_scale, satisfied_expectations}
use kruise.Expectations.Scale.History.{Call, expects, observes, asks, run, awaited, satisfied-run}

-- One pod is created and seen, and another is being deleted.
abbrev history : List Call
history =
    observes "ns/cs" create "pod-1"
    ∷ expects "ns/cs" delete "pod-2"
    ∷ asks 3 "ns/cs"
    ∷ expects "ns/cs" create "pod-1"
    ∷ []

still_waiting : (satisfied_expectations 9 (run history) "ns/cs").satisfied ≡ false
unfolding run expect_scale observe_scale satisfied_expectations
still_waiting = refl

all_seen :
    (satisfied_expectations 9 (run (observes "ns/cs" delete "pod-2" ∷ history)) "ns/cs").satisfied
    ≡ true
unfolding run expect_scale observe_scale satisfied_expectations
all_seen = refl

satisfied-run_example :
    ((satisfied_expectations 9 (run history) "ns/cs").satisfied ≡ true)
    ↔ ((a n : String) → awaited history "ns/cs" a n ≡ false)
satisfied-run_example = satisfied-run 9 history "ns/cs"
