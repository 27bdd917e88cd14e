-- ===== src/Util/Tools/Examples.antt =====
-- Partitions of concrete percentages.
use kruise.Prelude.{
  str_eq_iff, ◌≡◌, ◌≢◌, refl, String, str_eq, Bool, true, Option, none, some, arith, if◌then◌else◌,
}
use kruise.Prelude.Int.{ℤ, pos, ◌<ℤ◌, ◌-ℤ◌, min_ℤ, max_ℤ}
use kruise.Util.Tools.{
  str, trim_percent, clamp_partition, get_scaled_value_from_int_or_percent,
  calculate_partition_replicas,
}
use kruise.Util.Tools.Partition.{partition_lt_replicas}

-- Ten pods, of which 99 percent, rounded up, are ten.
abbrev scale : String → ℤ → Bool → Option ℤ
scale s total round_up = if str_eq s "99" then some (pos 10) else none

ten : calculate_partition_replicas scale (some (str "99%")) (some (pos 10)) ≡ some (pos 9)
unfolding calculate_partition_replicas get_scaled_value_from_int_or_percent trim_percent
    clamp_partition min_ℤ max_ℤ ◌-ℤ◌
ten = refl

scaled : get_scaled_value_from_int_or_percent scale (some (str "99%")) (pos 10) true ≡ some (pos 10)
unfolding get_scaled_value_from_int_or_percent trim_percent
scaled = refl

not_all : ◌≢◌ {A = String} "99%" "100%"
not_all = ground (arith, str_eq_iff "99%" "100%")

partition_lt_replicas_example : pos 9 <ℤ pos 10
partition_lt_replicas_example =
    partition_lt_replicas scale "99%" (pos 10) (pos 10) (pos 9) (omega arith) not_all scaled
      (omega arith) ten
