-- ===== src/Budget/Types.antt =====
-- The fields of apis/policy/v1alpha1/podunavailablebudget_types.go that the code reads and writes,
-- and the operations of a request.
use Prim.Native.Char.{Char, code}
use kruise.Prelude.{ℕ, String, Option, List, [], ◌∷◌, if◌then◌else◌, ◌==◌}
use kruise.Prelude.Int.{ℤ}
use kruise.Prelude.Assoc.{Assoc}

-- A `metav1.Time` is a number of nanoseconds.
pub record Status : Type 0 where
  pub observed_generation : ℕ
  pub disrupted_pods : Assoc ℕ
  pub unavailable_pods : Assoc ℕ
  pub unavailable_allowed : ℤ
  pub current_available : ℤ
  pub desired_available : ℤ
  pub total_replicas : ℤ

pub record Pub : Type 0 where
  pub resource_version : String
  pub generation : ℕ
  -- The annotation that lists the operations to protect against.
  pub protect_operations : Option String
  pub status : Status

pub data Operation : Type 0 where
  update : Operation
  delete : Operation
  evict : Operation

abbrev pub operation_name : Operation → String
operation_name update = "UPDATE"
operation_name delete = "DELETE"
operation_name evict = "EVICT"

abbrev to_head : Char → List String → List String
to_head c [] = String.◌∷◌ c String.[] ∷ []
to_head c (s ∷ ss) = String.◌∷◌ c s ∷ ss

-- `strings.Split(text, ",")`
unfoldable pub split_comma : String → List String
split_comma String.[] = String.[] ∷ []
split_comma (String.◌∷◌ c s) =
    let rest = split_comma s in if code c == b',' then String.[] ∷ rest else to_head c rest
