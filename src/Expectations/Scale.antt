-- ===== src/Expectations/Scale.antt =====
-- pkg/util/expectations/scale_expectations.go. `now` is the clock at the call.
pub mod Pending
pub mod History
mod Examples
use kruise.Prelude.{ℕ, String, Bool, true, false, Option, none, some, List, [], ◌∷◌, if◌then◌else◌}
use kruise.Prelude.Int.{ℤ, pos, ◌-ℤ◌}
use kruise.Prelude.Assoc.{Assoc, lookup, insert, erase, Names, add, remove}

-- `ScaleAction` is a string type, with two constants.
abbrev pub ScaleAction : Type 0
ScaleAction = String

abbrev pub create : ScaleAction
create = "create"

abbrev pub delete : ScaleAction
delete = "delete"

pub record ControllerScaleExpectations : Type 0 where
  pub objs_cache : Assoc Names
  -- `none` is the zero time.
  pub first_unsatisfied_timestamp : Option ℕ

-- Keyed by the namespace and name of the workload.
abbrev pub Cache : Type 0
Cache = Assoc ControllerScaleExpectations

unfoldable pub get_expectations : Cache → String → Option (Assoc Names)
get_expectations r key = elim (lookup key r) [ none ↦ none | some e ↦ some e.objs_cache ]

-- The entry of a controller, made if there is none.
abbrev entry : Option ControllerScaleExpectations → ControllerScaleExpectations
entry none = record { objs_cache = []; first_unsatisfied_timestamp = none }
entry (some e) = e

abbrev insert_name : String → Option Names → Names
insert_name name none = name ∷ []
insert_name name (some s) = add name s

unfoldable pub expect_scale : Cache → String → ScaleAction → String → Cache
expect_scale r key action name =
    let e = entry (lookup key r) in
    let names = insert_name name (lookup action e.objs_cache) in
    insert key (record e { objs_cache = insert action names e.objs_cache }) r

-- No action has a name left.
abbrev pub all_empty : Assoc Names → Bool
all_empty [] = true
all_empty ((a, []) ∷ m) = all_empty m
all_empty ((a, n ∷ s) ∷ m) = false

unfoldable pub observe_scale : Cache → String → ScaleAction → String → Cache
observe_scale r key action name = elim (lookup key r) [
  | none ↦ r
  | some e ↦ elim (lookup action e.objs_cache) [
    | none ↦ r
    | some s ↦
        let objs = insert action (remove name s) e.objs_cache in
        if all_empty objs then erase key r else insert key (record e { objs_cache = objs }) r
  ]
]

abbrev first_time : Option ℕ → ℕ → ℕ
first_time none now = now
first_time (some t) now = t

-- The first action in the order of iteration that has names, with them.
abbrev first_unsatisfied : Assoc Names → Option (ScaleAction × Names)
first_unsatisfied [] = none
first_unsatisfied ((a, []) ∷ m) = first_unsatisfied m
first_unsatisfied ((a, n ∷ s) ∷ m) = some (a, n ∷ s)

pub record Verdict : Type 0 where
  pub cache : Cache
  pub satisfied : Bool
  pub unsatisfied_for : ℤ
  pub dirty : Option (ScaleAction × Names)

unfoldable pub satisfied_expectations : ℕ → Cache → String → Verdict
satisfied_expectations now r key = elim (lookup key r) [
  | none ↦ record { cache = r; satisfied = true; unsatisfied_for = pos 0; dirty = none }
  | some e ↦ elim (first_unsatisfied e.objs_cache) [
    | none ↦ record { cache = erase key r; satisfied = true; unsatisfied_for = pos 0; dirty = none }
    | some (a, s) ↦
        let first = first_time e.first_unsatisfied_timestamp now in
        record {
          cache = insert key (record e { first_unsatisfied_timestamp = some first }) r;
          satisfied = false;
          unsatisfied_for = pos now -ℤ pos first;
          dirty = some (a, s);
        }
  ]
]

unfoldable pub delete_expectations : Cache → String → Cache
delete_expectations r key = erase key r
