-- ===== src/United/Specific/Examples.antt =====
-- Eight replicas between three subsets, of which one is to have three.
use kruise.Prelude.{ℕ, ◌≡◌, refl, arith, none, some, List, [], ◌∷◌, All}
use kruise.Prelude.Int.{pos, ◌+ℤ◌, ◌-ℤ◌, wrap32, quot_ℤ, rem_ℤ}
use kruise.Util.Tools.{int}
use kruise.United.Types.{SubsetDef, parse_subset_replicas}
use kruise.United.Specific.{
  get_specified_subset_replicas, get_subset_infos, validate_replicas, normal_allocate,
  specific_alloc,
}
use kruise.United.Specific.Sums.{allotted}
use kruise.United.Specific.Totals.{IsFair, normal_allocate-total}
use kruise.United.Specific.Shares.{IsHonored}

abbrev subsets : List SubsetDef
subsets =
    record { name = "a"; replicas = some (int (pos 3)); min_replicas = none; max_replicas = none }
    ∷ record { name = "b"; replicas = none; min_replicas = none; max_replicas = none }
    ∷ record { name = "c"; replicas = none; min_replicas = none; max_replicas = none }
    ∷ []

three_two_three :
    specific_alloc (λ is. is) (record { replicas = some (pos 8); subsets = subsets }) []
    ≡ some (("a", pos 3) ∷ ("b", pos 2) ∷ ("c", pos 3) ∷ [])
unfolding specific_alloc get_specified_subset_replicas get_subset_infos validate_replicas
    normal_allocate parse_subset_replicas quot_ℤ rem_ℤ wrap32 ◌+ℤ◌ ◌-ℤ◌
three_two_three = refl

normal_allocate-total_example :
    (allotted (normal_allocate (pos 8) (("a", pos 3) ∷ []) (get_subset_infos [] subsets)) ≡ pos 8)
    × All
        (IsHonored (("a", pos 3) ∷ []))
        (normal_allocate (pos 8) (("a", pos 3) ∷ []) (get_subset_infos [] subsets))
    × ((average : ℕ) × All
          (IsFair average)
          (normal_allocate (pos 8) (("a", pos 3) ∷ []) (get_subset_infos [] subsets)))
unfolding get_subset_infos ◌+ℤ◌
normal_allocate-total_example =
    normal_allocate-total (pos 8) (("a", pos 3) ∷ []) (get_subset_infos [] subsets)
      (record { above = omega arith; below = omega arith }) (omega arith, tt)
      (refl, (refl, (refl, tt))) (omega arith) (omega arith)
