-- ===== src/Expectations/ResourceVersion.antt =====
-- pkg/util/expectations/resource_version_expectation.go. `now` is the clock at the call.
pub mod Versions
mod Examples
use kruise.Prelude.{
  ℕ, ◌+◌, ◌-◌, ◌*◌, ◌^◌, String, str_eq, Bool, true, false, ◌&&◌, Option, none, some, List, [], ◌∷◌,
  ltb, leb, if◌then◌else◌,
}
use kruise.Prelude.Int.{ℤ, pos, ◌-ℤ◌}
use kruise.Prelude.Decimal.{parse_uint}
use kruise.Prelude.Assoc.{Assoc, lookup, insert, erase}

-- What the store reads of an API object.
pub record Object : Type 0 where
  pub uid : String
  pub resource_version : String

pub record ObjectCacheVersions : Type 0 where
  pub version : String
  -- `none` is the zero time.
  pub first_unsatisfied_timestamp : Option ℕ

abbrev pub Store : Type 0
Store = Assoc ObjectCacheVersions

unfoldable pub is_resource_version_newer : String → String → Bool
is_resource_version_newer old new = if str_eq old "" then true else elim (parse_uint old) [
  | none ↦ true
  | some old_count ↦ elim (parse_uint new) [
    | none ↦ false
    | some new_count ↦ leb old_count new_count
  ]
]

abbrev fresh : ObjectCacheVersions
fresh = record { version = ""; first_unsatisfied_timestamp = none }

-- The tail of `Expect`, for the entry `e` that the object has in `r`.
raise_version : Store → ObjectCacheVersions → Object → Store
raise_version r e obj =
    if is_resource_version_newer e.version obj.resource_version
    then insert obj.uid (record e { version = obj.resource_version }) r
    else r

unfoldable pub expect : Store → Object → Store
unfolding raise_version
expect r obj = elim (lookup obj.uid r) [
  | none ↦ raise_version (insert obj.uid fresh r) fresh obj
  | some e ↦ raise_version r e obj
]

unfoldable pub observe : Store → Object → Store
observe r obj = elim (lookup obj.uid r) [
  | none ↦ r
  | some e ↦ if is_resource_version_newer e.version obj.resource_version then erase obj.uid r else r
]

abbrev pub first_time : Option ℕ → ℕ → ℕ
first_time none now = now
first_time (some t) now = t

pub record Verdict : Type 0 where
  pub store : Store
  pub satisfied : Bool
  pub unsatisfied_for : ℤ

unfoldable pub is_satisfied : ℕ → Store → Object → Verdict
is_satisfied now r obj = elim (lookup obj.uid r) [
  | none ↦ record { store = r; satisfied = true; unsatisfied_for = pos 0 }
  | some e ↦
      let first = first_time e.first_unsatisfied_timestamp now in
      if is_resource_version_newer e.version obj.resource_version
      then record { store = erase obj.uid r; satisfied = true; unsatisfied_for = pos 0 }
      else record {
        store = insert obj.uid (record e { first_unsatisfied_timestamp = some first }) r;
        satisfied = false;
        unsatisfied_for = pos now -ℤ pos first;
      }
]

unfoldable pub delete : Store → Object → Store
delete r obj = erase obj.uid r
