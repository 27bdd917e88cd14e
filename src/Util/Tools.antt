-- ===== src/Util/Tools.antt =====
-- pkg/util/tools.go: numbers that are given as integers or as percentages.
pub mod Partition
mod Examples
use Prim.Native.Char.{Char, code}
use kruise.Prelude.{
  ℕ, String, str_eq, Bool, true, false, ◌&&◌, ◌||◌, not, Option, none, some, if◌then◌else◌, ◌==◌,
}
use kruise.Prelude.Int.{ℤ, pos, ◌-ℤ◌, ltb_ℤ, eqb_ℤ, min_ℤ, max_ℤ, abs_ℤ}

-- `intstr.IntOrString` of the Kubernetes API: an integer, or a text such as "20%".
pub data IntOrString : Type 0 where
  int : ℤ → IntOrString
  str : String → IntOrString

-- `math.Abs` goes through a float64, which is exact for the counts of pods that it is given.
unfoldable pub int_abs : ℤ → ℤ
unfolding abs_ℤ
int_abs i = abs_ℤ i

abbrev pub is_int_plus_and_minus : ℤ → ℤ → Bool
is_int_plus_and_minus i j =
    (ltb_ℤ i (pos 0) && ltb_ℤ (pos 0) j) || (ltb_ℤ (pos 0) i && ltb_ℤ j (pos 0))

abbrev prepend : Char → Option String → Option String
prepend c none = none
prepend c (some s) = some (String.◌∷◌ c s)

-- The text before a final "%", if there is one: `strings.HasSuffix` and `strings.TrimSuffix`.
unfoldable pub trim_percent : String → Option String
trim_percent String.[] = none
trim_percent (String.◌∷◌ c String.[]) = if code c == b'%' then some String.[] else none
trim_percent (String.◌∷◌ c (String.◌∷◌ d s)) = prepend c (trim_percent (String.◌∷◌ d s))

abbrev is_text : IntOrString → Bool
is_text (int n) = false
is_text (str s) = true

abbrev str_val : IntOrString → String
str_val (int n) = ""
str_val (str s) = s

-- `scale text total round_up` stands for the floating-point part: `strconv.ParseFloat(text, 64)`
-- times `total` over 100, rounded up or down, or `none` where the text is no number.
module _ (scale : String → ℤ → Bool → Option ℤ) where
  -- `none` is the error.
  unfoldable pub get_scaled_value_from_int_or_percent : Option IntOrString → ℤ → Bool → Option ℤ
  get_scaled_value_from_int_or_percent none total round_up = none
  get_scaled_value_from_int_or_percent (some (int n)) total round_up = some n
  get_scaled_value_from_int_or_percent (some (str s)) total round_up = elim (trim_percent s) [
    | none ↦ none
    | some t ↦ scale t total round_up
  ]

  -- The clamp that `CalculatePartitionReplicas` ends with.
  unfoldable pub clamp_partition : IntOrString → ℤ → ℤ → ℤ
  clamp_partition p replicas value =
      let lowered =
        if ltb_ℤ (pos 1) replicas
          && (eqb_ℤ value replicas && (is_text p && not (str_eq (str_val p) "100%")))
        then replicas -ℤ pos 1
        else value in
      max_ℤ (min_ℤ lowered replicas) (pos 0)

  abbrev replicas_or_one : Option ℤ → ℤ
  replicas_or_one none = pos 1
  replicas_or_one (some n) = n

  unfoldable pub calculate_partition_replicas : Option IntOrString → Option ℤ → Option ℤ
  calculate_partition_replicas none replicas_pointer = some (pos 0)
  calculate_partition_replicas (some p) replicas_pointer =
      let replicas = replicas_or_one replicas_pointer in
      elim (get_scaled_value_from_int_or_percent (some p) replicas true) [
        | none ↦ none
        | some value ↦ some (clamp_partition p replicas value)
      ]
