-- ===== src/United/Elastic/Examples.antt =====
-- Five replicas between two subsets, with a minimum of two each and a maximum of four for one.
use kruise.Prelude.{All, ◌≡◌, ◌≢◌, refl, arith, String, str_eq_iff, none, some, [], ◌∷◌}
use kruise.Prelude.Int.{pos, min_ℤ, max_ℤ, ◌+ℤ◌, ◌-ℤ◌, wrap32}
use kruise.Util.Tools.{int}
use kruise.United.Types.{SubsetDef, parse_subset_replicas}
use kruise.United.Sums.{total, NonNegative}
use kruise.United.Elastic.{
  MinMax, alloc, elastic_alloc, satisfy_min, satisfy_max, room, validate_and_calculate_min_max,
}
use kruise.United.Elastic.Shares.{IsShare, alloc-shares}
use kruise.United.Elastic.Counted.{IsBounded, sum_at}
use kruise.United.Elastic.Totals.{alloc-total}

abbrev subset_a : SubsetDef
subset_a = record {
  name = "a";
  replicas = none;
  min_replicas = some (int (pos 2));
  max_replicas = some (int (pos 4));
}

abbrev subset_b : SubsetDef
subset_b = record {
  name = "b";
  replicas = none;
  min_replicas = some (int (pos 2));
  max_replicas = none;
}

abbrev bounds : MinMax
bounds = record {
  min_replicas = ("a", pos 2) ∷ ("b", pos 2) ∷ [];
  max_replicas = ("a", pos 4) ∷ ("b", pos 1000000) ∷ [];
}

-- The example of the source: three and two replicas.
three_and_two :
    elastic_alloc (record { replicas = some (pos 5); subsets = subset_a ∷ subset_b ∷ [] })
    ≡ some (("a", pos 3) ∷ ("b", pos 2) ∷ [])
unfolding elastic_alloc alloc satisfy_min satisfy_max room validate_and_calculate_min_max
    parse_subset_replicas min_ℤ max_ℤ wrap32 ◌+ℤ◌ ◌-ℤ◌
three_and_two = refl

names_differ : ◌≢◌ {A = String} "a" "b"
names_differ = ground (arith, str_eq_iff "a" "b")

bounded : All (IsBounded bounds) (subset_a ∷ subset_b ∷ [])
bounded = (
  record { nonneg = omega arith; in_order = omega arith; in_range = omega arith },
  (record { nonneg = omega arith; in_order = omega arith; in_range = omega arith }, tt),
)

alloc-shares_example :
    All
      (IsShare bounds.max_replicas (alloc (pos 5) bounds (subset_a ∷ subset_b ∷ [])))
      (subset_a ∷ subset_b ∷ [])
alloc-shares_example =
    alloc-shares bounds (pos 5) (subset_a ∷ subset_b ∷ []) bounded ((names_differ, tt), (tt, tt))

alloc-total_example :
    (total (alloc (pos 5) bounds (subset_a ∷ subset_b ∷ []))
      ≡ min_ℤ (pos 5) (sum_at bounds.max_replicas (subset_a ∷ subset_b ∷ [])))
    × NonNegative (alloc (pos 5) bounds (subset_a ∷ subset_b ∷ []))
alloc-total_example =
    alloc-total bounds (pos 5) (omega arith) (subset_a ∷ subset_b ∷ []) (omega arith) bounded
      ((names_differ, tt), (tt, tt))
