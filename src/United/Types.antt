-- ===== src/United/Types.antt =====
-- The topology of apis/apps/v1alpha1/uniteddeployment_types.go as the allocators read it, and
-- `ParseSubsetReplicas` of uniteddeployment_controller_utils.go.
use kruise.Prelude.{◌+◌, ◌*◌, ◌/◌, String, ◌||◌, Option, none, some, List, if◌then◌else◌}
use kruise.Prelude.Int.{ℤ, pos, ltb_ℤ, pos_part, wrap32}
use kruise.Prelude.Decimal.{parse_int32}
use kruise.Util.Tools.{IntOrString, int, str, trim_percent}

pub record SubsetDef : Type 0 where
  pub name : String
  pub replicas : Option IntOrString
  pub min_replicas : Option IntOrString
  pub max_replicas : Option IntOrString

pub record UnitedDeployment : Type 0 where
  -- `ud.Spec.Replicas`, an int32 if it is set.
  pub replicas : Option ℤ
  pub subsets : List SubsetDef

-- `round(float64(udReplicas) * float64(percent) / 100)`. The product is exact in a float64, and the
-- quotient is a half only if it is so exactly, so that the rounding is that of the fraction.
percentage : ℤ → ℤ → ℤ
percentage ud_replicas percent = wrap32 (pos ((pos_part ud_replicas * pos_part percent + 50) / 100))

percentage_in_range : ℤ → Option ℤ → Option ℤ
percentage_in_range ud_replicas none = none
percentage_in_range ud_replicas (some percent) =
    if ltb_ℤ (pos 100) percent || ltb_ℤ percent (pos 0)
    then none
    else some (percentage ud_replicas percent)

-- `none` is the error, with which the source returns 0.
unfoldable pub parse_subset_replicas : ℤ → IntOrString → Option ℤ
unfolding percentage_in_range percentage
parse_subset_replicas ud_replicas (int n) = if ltb_ℤ n (pos 0) then none else some n
parse_subset_replicas ud_replicas (str s) =
    if ltb_ℤ ud_replicas (pos 0) then none else elim (trim_percent s) [
      | none ↦ none
      | some int_part ↦ percentage_in_range ud_replicas (parse_int32 int_part)
    ]

abbrev pub or_zero : Option ℤ → ℤ
or_zero none = pos 0
or_zero (some n) = n
