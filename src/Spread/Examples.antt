-- ===== src/Spread/Examples.antt =====
-- Runs of the assignment of pods to subsets, and the theorems at them.
use kruise.Prelude.{◌+◌, ◌≡◌, refl, String, true, false, none, List, [], ◌∷◌, arith, count}
use kruise.Prelude.Int.{ℤ, pos, negsuc, ◌-ℤ◌, wrap32}
use kruise.Spread.{SubsetStatus, Request, create, update_subset_for_pod}
use kruise.Spread.Found.{room, IsSpread}
use kruise.Spread.Quota.{after, assigned, released, after-room}
use kruise.Spread.Status.{Pod, calculate_subset_status}
use kruise.Spread.Status.Missing.{IsWithin, calculate_subset_status-IsCounted}

abbrev subset : String → ℤ → SubsetStatus
subset name missing = record {
  name = name;
  replicas = pos 0;
  schedulable = none;
  missing_replicas = missing;
  creating_pods = [];
  deleting_pods = [];
}

-- One more pod fits into the first subset, and any number into the second.
abbrev subsets : List SubsetStatus
subsets = subset "a" (pos 1) ∷ subset "b" (negsuc 0) ∷ []

abbrev creation : String → Request
creation name = record { operation = create; pod_name = name; subset = ""; uid = ""; now = pos 0 }

abbrev requests : List Request
requests = creation "x" ∷ creation "x" ∷ creation "y" ∷ []

-- A repeated request changes nothing.
first_is_full : room "a" (after requests subsets) ≡ 0
unfolding update_subset_for_pod ◌-ℤ◌ wrap32
first_is_full = refl

one_is_assigned : assigned "a" requests subsets ≡ 1
unfolding update_subset_for_pod ◌-ℤ◌ wrap32
one_is_assigned = refl

subsets-IsSpread : IsSpread 3 subsets
subsets-IsSpread = (
  record { low = omega arith; high = omega arith },
  refl,
  (record { low = omega arith; high = omega arith }, refl, tt),
)

after-room_example :
    room "a" (after requests subsets) + assigned "a" requests subsets
    ≡ room "a" subsets + released "a" requests subsets
after-room_example = after-room requests subsets subsets-IsSpread "a"

abbrev pods : List Pod
pods =
    record { name = "x"; inject_uid = ""; active = true }
    ∷ record { name = "y"; inject_uid = ""; active = false }
    ∷ []

calculate_subset_status-IsCounted_example :
    let s = (calculate_subset_status "ns/ws" (pos 0) "a" (pos 2) none pods []).status in
    IsWithin (pos 2) s.missing_replicas × (s.replicas ≡ pos (count (λ p. p.active) pods))
calculate_subset_status-IsCounted_example =
    calculate_subset_status-IsCounted "ns/ws" (pos 0) "a" (pos 2) none pods []
