-- ===== src/Expectations/Update.antt =====
-- pkg/util/expectations/update_expectations.go. The revision adapter is a parameter, as it is an
-- interface in the source. `now` is the clock at the call.
pub mod Awaiting
pub mod History
mod Examples
use Prim.Native.String.{◌++◌}
use kruise.Prelude.{
  ℕ, String, str_eq, Bool, true, false, ◌&&◌, ◌||◌, not, Option, none, some, List, [], ◌∷◌,
  if◌then◌else◌,
}
use kruise.Prelude.Int.{ℤ, pos, ◌-ℤ◌}
use kruise.Prelude.Assoc.{Assoc, lookup, insert, erase, Names, has, add, remove}

pub record Object : Type 0 where
  pub namespace : String
  pub name : String
  -- The labels that an adapter reads.
  pub labels : Assoc String

pub record ControllerUpdateExpectations : Type 0 where
  pub revision : String
  pub objs_updated : Names
  -- `none` is the zero time.
  pub first_unsatisfied_timestamp : Option ℕ

abbrev pub Cache : Type 0
Cache = Assoc ControllerUpdateExpectations

abbrev pub get_key : Object → String
get_key obj = obj.namespace ++ ("/" ++ obj.name)

abbrev fresh : String → ControllerUpdateExpectations
fresh revision = record {
  revision = revision;
  objs_updated = [];
  first_unsatisfied_timestamp = none;
}

-- The entry that `ExpectUpdated` adds to: a new one where the revision is another.
abbrev entry : String → Option ControllerUpdateExpectations → ControllerUpdateExpectations
entry revision none = fresh revision
entry revision (some e) = if str_eq e.revision revision then e else fresh revision

unfoldable pub expect_updated : Cache → String → String → Object → Cache
expect_updated r key revision obj =
    let e = entry revision (lookup key r) in
    insert key (record e { objs_updated = add (get_key obj) e.objs_updated }) r

abbrev is_empty : Names → Bool
is_empty [] = true
is_empty (n ∷ s) = false

module _ (equal_to_revision_hash : String → Object → String → Bool) where
  -- The names that are left once `obj` is seen.
  left : ControllerUpdateExpectations → String → String → Object → Names
  left e key revision obj =
      if str_eq e.revision revision
        && (has (get_key obj) e.objs_updated && equal_to_revision_hash key obj revision)
      then remove (get_key obj) e.objs_updated
      else e.objs_updated

  unfoldable pub observe_updated : Cache → String → String → Object → Cache
  unfolding left
  observe_updated r key revision obj = elim (lookup key r) [
    | none ↦ r
    | some e ↦
        let objs = left e key revision obj in
        if not (str_eq e.revision revision) || is_empty objs
        then erase key r
        else insert key (record e { objs_updated = objs }) r
  ]

unfoldable pub delete_object : Cache → String → Object → Cache
delete_object r key obj = elim (lookup key r) [
  | none ↦ r
  | some e ↦ insert key (record e { objs_updated = remove (get_key obj) e.objs_updated }) r
]

abbrev first_time : Option ℕ → ℕ → ℕ
first_time none now = now
first_time (some t) now = t

pub record Verdict : Type 0 where
  pub cache : Cache
  pub satisfied : Bool
  pub unsatisfied_for : ℤ
  pub dirty : Names

unfoldable pub satisfied_expectations : ℕ → Cache → String → String → Verdict
satisfied_expectations now r key revision = elim (lookup key r) [
  | none ↦ record { cache = r; satisfied = true; unsatisfied_for = pos 0; dirty = [] }
  | some e ↦
      let reset = insert key (record e { first_unsatisfied_timestamp = none }) r in
      let first = first_time e.first_unsatisfied_timestamp now in
      if not (str_eq e.revision revision)
      then record { cache = reset; satisfied = true; unsatisfied_for = pos 0; dirty = [] }
      else if not (is_empty e.objs_updated)
      then record {
        cache = insert key (record e { first_unsatisfied_timestamp = some first }) r;
        satisfied = false;
        unsatisfied_for = pos now -ℤ pos first;
        dirty = e.objs_updated;
      }
      else record { cache = reset; satisfied = true; unsatisfied_for = pos 0; dirty = [] }
]

unfoldable pub delete_expectations : Cache → String → Cache
delete_expectations r key = erase key r
