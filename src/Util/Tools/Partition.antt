-- ===== src/Util/Tools/Partition.antt =====
-- The range of a partition.
use kruise.Prelude.{
  ◌≡◌, ◌≢◌, String, str_eq_iff, Bool, true, Option, some, arith, inl, inr, Option-cases,
}
use kruise.Prelude.Int.{ℤ, pos, ◌≤ℤ◌, ◌<ℤ◌, min_ℤ, max_ℤ, int_order, -ℤ_parts}
use kruise.Util.Tools.{
  IntOrString, str, clamp_partition, get_scaled_value_from_int_or_percent,
  calculate_partition_replicas,
}

clamp_bounds :
    (x r : ℤ) → pos 0 ≤ℤ r → (pos 0 ≤ℤ max_ℤ (min_ℤ x r) (pos 0)) × (max_ℤ (min_ℤ x r) (pos 0) ≤ℤ r)
clamp_bounds x r h = omega int_order

clamp_lt : (x r : ℤ) → x <ℤ r → pos 0 <ℤ r → max_ℤ (min_ℤ x r) (pos 0) <ℤ r
clamp_lt x r h k = omega int_order

module _ (scale : String → ℤ → Bool → Option ℤ) where
  clamped :
      (p : IntOrString) (replicas value : ℤ)
      → pos 0 ≤ℤ replicas
      → (pos 0 ≤ℤ clamp_partition scale p replicas value)
        × (clamp_partition scale p replicas value ≤ℤ replicas)
  unfolding clamp_partition
  clamped p replicas value h = clamp_bounds _ replicas h

  clamped_lt :
      (s : String) (replicas value : ℤ)
      → pos 1 <ℤ replicas
      → s ≢ "100%"
      → value ≤ℤ replicas
      → clamp_partition scale (str s) replicas value <ℤ replicas
  unfolding clamp_partition
  clamped_lt s replicas value h ne le =
      clamp_lt _ replicas (ground (arith, str_eq_iff s "100%", -ℤ_parts replicas (pos 1)))
        (omega arith)

  -- However the percentage is rounded, a partition that is computed lies between 0 and the number
  -- of replicas, where that is not negative.
  pub partition_bounds :
      (p : IntOrString) (replicas n : ℤ)
      → pos 0 ≤ℤ replicas
      → calculate_partition_replicas scale (some p) (some replicas) ≡ some n
      → (pos 0 ≤ℤ n) × (n ≤ℤ replicas)
  unfolding calculate_partition_replicas
  partition_bounds p replicas n h e =
      elim (Option-cases (get_scaled_value_from_int_or_percent scale (some p) replicas true)) [
        | inl bad ↦ ground arith
        | inr (value, good) ↦
            let same : clamp_partition scale p replicas value ≡ n = ground arith in
            rw (← same) (clamped p replicas value h)
      ]

  -- A percentage other than the text "100%" leaves at least one pod of several to be updated: the
  -- partition is below the number of replicas, whatever the percentage scales to, if that is not
  -- above the number of replicas.
  pub partition_lt_replicas :
      (s : String) (replicas value n : ℤ)
      → pos 1 <ℤ replicas
      → s ≢ "100%"
      → get_scaled_value_from_int_or_percent scale (some (str s)) replicas true ≡ some value
      → value ≤ℤ replicas
      → calculate_partition_replicas scale (some (str s)) (some replicas) ≡ some n
      → n <ℤ replicas
  unfolding calculate_partition_replicas
  partition_lt_replicas s replicas value n h ne hs le e =
      let same : clamp_partition scale (str s) replicas value ≡ n = ground arith in
      rw (← same) (clamped_lt s replicas value h ne le)
