-- ===== src/Expectations/Update/History.antt =====
-- What the cache answers after any history of calls, against a specification on the history alone.
use kruise.Prelude.{
  ℕ, ◌≡◌, refl, sym, ◌∙◌, ◌↔◌, String, str_eq, str_eq_iff, Bool, true, false, ◌&&◌, ◌||◌, not, none,
  some, List, [], ◌∷◌, arith, if◌then◌else◌, Option-cases, inl, inr,
}
use kruise.Prelude.Assoc.{lookup, lookup-insert, lookup-erase, has-remove, remove}
use kruise.Expectations.Update.{
  Object, Cache, get_key, expect_updated, observe_updated, delete_object, satisfied_expectations,
  delete_expectations, first_time,
}
use kruise.Expectations.Update.Awaiting.{
  awaits, satisfied-awaits, awaits-expect_updated, awaits-observe_updated,
}

-- The methods that a controller and its event handlers call.
pub data Call : Type 0 where
  expects observes : String → String → Object → Call
  asks : ℕ → String → String → Call
  forgets : String → Object → Call
  deletes : String → Call

-- Whatever the revision adapter answers.
module _ (equal : String → Object → String → Bool) where
  pub step : Cache → Call → Cache
  step r (expects key rev obj) = expect_updated r key rev obj
  step r (observes key rev obj) = observe_updated equal r key rev obj
  step r (asks now key rev) = (satisfied_expectations now r key rev).cache
  step r (forgets key obj) = delete_object r key obj
  step r (deletes key) = delete_expectations r key

  -- The history is given with its latest call first.
  unfoldable pub run : List Call → Cache
  unfolding step
  run [] = []
  run (x ∷ xs) = step (run xs) x

  -- The specification. What a controller awaits at a revision goes once it expects or observes
  -- something at another one; an object goes once it is seen with the hash, or is deleted.
  abbrev pub awaited : List Call → String → String → String → Bool
  awaited [] key' rev' k = false
  awaited (expects key rev obj ∷ xs) key' rev' k =
      let rest = awaited xs key' rev' k in
      if str_eq key key' then (str_eq rev rev' && (str_eq (get_key obj) k || rest)) else rest
  awaited (observes key rev obj ∷ xs) key' rev' k =
      let rest = awaited xs key' rev' k in
      if str_eq key key'
      then (str_eq rev rev' && (rest && not (str_eq (get_key obj) k && equal key obj rev)))
      else rest
  awaited (asks now key rev ∷ xs) key' rev' k = awaited xs key' rev' k
  awaited (forgets key obj ∷ xs) key' rev' k =
      let rest = awaited xs key' rev' k in
      if str_eq key key' then (rest && not (str_eq (get_key obj) k)) else rest
  awaited (deletes key ∷ xs) key' rev' k =
      let rest = awaited xs key' rev' k in if str_eq key key' then false else rest

awaits-satisfied :
    (now : ℕ) (r : Cache) (key rev key' rev' k : String)
    → awaits (satisfied_expectations now r key rev).cache key' rev' k ≡ awaits r key' rev' k
unfolding awaits satisfied_expectations
awaits-satisfied now r key rev key' rev' k = elim (Option-cases (lookup key r)) [
  | inl absent ↦ rw (absent, satisfied_expectations) refl
  | inr (e, he) ↦
      let reset = record e { first_unsatisfied_timestamp = none } in
      let timed = record e {
        first_unsatisfied_timestamp = some (first_time e.first_unsatisfied_timestamp now);
      } in
      ground (
        arith,
        he,
        lookup-insert key key' reset r,
        lookup-insert key key' timed r,
        str_eq_iff key key',
      )
]

awaits-delete_object :
    (r : Cache) (key : String) (obj : Object) (key' rev' k : String)
    → awaits (delete_object r key obj) key' rev' k ≡ (
        if str_eq key key'
        then (awaits r key' rev' k && not (str_eq (get_key obj) k))
        else awaits r key' rev' k)
unfolding awaits delete_object
awaits-delete_object r key obj key' rev' k = elim (Option-cases (lookup key r)) [
  | inl absent ↦ ground (arith, absent, str_eq_iff key key')
  | inr (e, he) ↦
      let n = get_key obj in
      ground (
        arith,
        he,
        has-remove n k e.objs_updated,
        str_eq_iff key key',
        lookup-insert key key' (record e { objs_updated = remove n e.objs_updated }) r,
      )
]

awaits-delete_expectations :
    (r : Cache) (key key' rev' k : String)
    → awaits (delete_expectations r key) key' rev' k
      ≡ (if str_eq key key' then false else awaits r key' rev' k)
unfolding awaits delete_expectations
awaits-delete_expectations r key key' rev' k = ground (arith, lookup-erase key key' r)

module _ (equal : String → Object → String → Bool) where
  awaits-run :
      (xs : List Call) (key rev k : String)
      → awaits (run equal xs) key rev k ≡ awaited equal xs key rev k
  unfolding run step
  awaits-run [] key rev k = unfold awaits in refl
  awaits-run (expects key rev obj ∷ xs) key' rev' k = ground (
    arith,
    awaits-expect_updated (run equal xs) key rev obj key' rev' k,
    awaits-run xs key' rev' k,
    str_eq_iff key key',
    str_eq_iff rev rev',
  )
  awaits-run (observes key rev obj ∷ xs) key' rev' k = ground (
    arith,
    awaits-observe_updated equal (run equal xs) key rev obj key' rev' k,
    awaits-run xs key' rev' k,
    str_eq_iff key key',
    str_eq_iff rev rev',
  )
  awaits-run (asks now key rev ∷ xs) key' rev' k =
      awaits-satisfied now (run equal xs) key rev key' rev' k ∙ awaits-run xs key' rev' k
  awaits-run (forgets key obj ∷ xs) key' rev' k =
      rw (awaits-delete_object (run equal xs) key obj key' rev' k, awaits-run xs key' rev' k) refl
  awaits-run (deletes key ∷ xs) key' rev' k =
      rw (awaits-delete_expectations (run equal xs) key key' rev' k, awaits-run xs key' rev' k) refl

  -- After any history of calls, whatever the revision adapter answers: the controller is told to go
  -- on at a revision exactly when, by the history alone, it awaits no object there.
  pub satisfied-awaited :
      (now : ℕ) (xs : List Call) (key rev : String)
      → ((satisfied_expectations now (run equal xs) key rev).satisfied ≡ true)
        ↔ ((k : String) → awaited equal xs key rev k ≡ false)
  satisfied-awaited now xs key rev =
      let (there, back) = satisfied-awaits now (run equal xs) key rev in
      (
        λ ok k. sym (awaits-run xs key rev k) ∙ there ok k,
        λ h. back (λ k. awaits-run xs key rev k ∙ h k),
      )
