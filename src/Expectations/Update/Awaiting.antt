-- ===== src/Expectations/Update/Awaiting.antt =====
-- The cache as a set of objects that each controller awaits at its latest revision.
use kruise.Prelude.{
  ℕ, ◌≡◌, refl, ◌↔◌, String, str_eq, str_eq_iff, str_eq_refl, Bool, true, false, ◌&&◌, ◌||◌, not,
  Option, none, some, [], ◌∷◌, arith, if◌then◌else◌, Option-cases, inl, inr,
}
use kruise.Prelude.Assoc.{lookup, lookup-insert, lookup-erase, Names, has, add, has-add, has-remove}
use kruise.Expectations.Update.{
  Object, ControllerUpdateExpectations, Cache, get_key, entry, is_empty, expect_updated, left,
  observe_updated, satisfied_expectations,
}

abbrev awaits_in : Option ControllerUpdateExpectations → String → String → Bool
awaits_in none revision obj = false
awaits_in (some e) revision obj = str_eq e.revision revision && has obj e.objs_updated

-- Is the object `obj`, named by its key, awaited by the controller at this revision?
unfoldable pub awaits : Cache → String → String → String → Bool
awaits r key revision obj = awaits_in (lookup key r) revision obj

entry-revision :
    (rev : String) (o : Option ControllerUpdateExpectations) → (entry rev o).revision ≡ rev
entry-revision rev none = refl
entry-revision rev (some e) = ground (arith, str_eq_iff e.revision rev)

has-entry :
    (rev k : String) (o : Option ControllerUpdateExpectations)
    → has k (entry rev o).objs_updated ≡ awaits_in o rev k
has-entry rev k none = refl
has-entry rev k (some e) = ground arith

-- Expecting an object at a revision awaits it there, keeps the other objects awaited at that
-- revision, and drops all that the controller awaited at any other one. Other controllers keep
-- what they await.
pub awaits-expect_updated :
    (r : Cache) (key rev : String) (obj : Object) (key' rev' k : String)
    → awaits (expect_updated r key rev obj) key' rev' k ≡ (
        if str_eq key key'
        then (str_eq rev rev' && (str_eq (get_key obj) k || awaits r key rev k))
        else awaits r key' rev' k)
unfolding awaits expect_updated
awaits-expect_updated r key rev obj key' rev' k =
    let e = entry rev (lookup key r) in
    let names = add (get_key obj) e.objs_updated in
    ground (
      arith,
      lookup-insert key key' (record e { objs_updated = names }) r,
      has-add (get_key obj) k e.objs_updated,
      entry-revision rev (lookup key r),
      has-entry rev k (lookup key r),
      str_eq_iff key key',
    )

has-is_empty : (k : String) (s : Names) → is_empty s ≡ true → has k s ≡ false
has-is_empty k [] h = refl
has-is_empty k (n ∷ s) h = cc

abbrev first_of_names : Names → String
first_of_names [] = ""
first_of_names (n ∷ s) = n

has-first : (s : Names) → is_empty s ≡ false → has (first_of_names s) s ≡ true
has-first [] h = cc
has-first (n ∷ s) h = ground (arith, str_eq_refl n)

-- The controller is told to go on at a revision exactly when it awaits no object there.
pub satisfied-awaits :
    (now : ℕ) (r : Cache) (key rev : String)
    → ((satisfied_expectations now r key rev).satisfied ≡ true)
      ↔ ((k : String) → awaits r key rev k ≡ false)
unfolding awaits satisfied_expectations
satisfied-awaits now r key rev = (
  λ ok k. elim (Option-cases (lookup key r)) [
    | inl absent ↦ rw absent
    | inr (e, he) ↦ ground (arith, has-is_empty k e.objs_updated)
  ],
  λ h. elim (Option-cases (lookup key r)) [
    | inl absent ↦ rw (absent, satisfied_expectations)
    | inr (e, he) ↦ ground (arith, h (first_of_names e.objs_updated), has-first e.objs_updated)
  ],
)

module _ (equal : String → Object → String → Bool) where
  has-left :
      (e : ControllerUpdateExpectations) (key rev : String) (obj : Object) (k : String)
      → e.revision ≡ rev
      → has k (left equal e key rev obj)
        ≡ (has k e.objs_updated && not (str_eq (get_key obj) k && equal key obj rev))
  unfolding left
  has-left e key rev obj k same = ground (
    arith,
    has-remove (get_key obj) k e.objs_updated,
    str_eq_iff e.revision rev,
    str_eq_iff (get_key obj) k,
  )

  observed :
      (r : Cache) (key rev : String) (obj : Object) (key' rev' k : String)
      (e : ControllerUpdateExpectations)
      → lookup key r ≡ some e
      → awaits (observe_updated equal r key rev obj) key' rev' k ≡ (
          if str_eq key key'
          then (str_eq rev rev'
              && (awaits r key rev k && not (str_eq (get_key obj) k && equal key obj rev)))
          else awaits r key' rev' k)
  unfolding awaits observe_updated
  observed r key rev obj key' rev' k e he =
      let objs = left equal e key rev obj in
      rw (he, observe_updated)
        (ground (
          arith,
          lookup-insert key key' (record e { objs_updated = objs }) r,
          lookup-erase key key' r,
          has-left e key rev obj k,
          has-is_empty k objs,
          str_eq_iff key key',
          str_eq_iff e.revision rev,
        ))

  -- An object that is seen with the hash of the revision is no longer awaited there; one that is
  -- seen without it stays awaited. No other object of that revision is touched, nor is another
  -- controller; what the controller awaited at another revision is dropped.
  pub awaits-observe_updated :
      (r : Cache) (key rev : String) (obj : Object) (key' rev' k : String)
      → awaits (observe_updated equal r key rev obj) key' rev' k ≡ (
          if str_eq key key'
          then (str_eq rev rev'
              && (awaits r key rev k && not (str_eq (get_key obj) k && equal key obj rev)))
          else awaits r key' rev' k)
  unfolding awaits observe_updated
  awaits-observe_updated r key rev obj key' rev' k = elim (Option-cases (lookup key r)) [
    | inl absent ↦ ground (arith, str_eq_iff key key')
    | inr (e, he) ↦ observed r key rev obj key' rev' k e he
  ]
