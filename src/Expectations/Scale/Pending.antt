-- ===== src/Expectations/Scale/Pending.antt =====
-- The cache refines a set of pending (controller, action, name) triples.
use kruise.Prelude.{
  ◌≡◌, refl, String, str_eq, str_eq_iff, Bool, true, false, ◌&&◌, Option, none, some, [], ◌∷◌,
  arith, if◌then◌else◌, Option-cases, inl, inr,
}
use kruise.Prelude.Assoc.{
  Assoc, lookup, insert, lookup-insert, lookup-erase, Names, has, remove, has-add, has-remove,
}
use kruise.Expectations.Scale.{
  ScaleAction, ControllerScaleExpectations, Cache, all_empty, expect_scale, observe_scale, entry,
  insert_name,
}

abbrev pub has_in : String → Option Names → Bool
has_in name none = false
has_in name (some s) = has name s

abbrev pub pending_in : Option ControllerScaleExpectations → ScaleAction → String → Bool
pending_in none action name = false
pending_in (some e) action name = has_in name (lookup action e.objs_cache)

-- The abstract view: is this name awaited?
unfoldable pub pending : Cache → String → ScaleAction → String → Bool
pending r key action name = pending_in (lookup key r) action name

-- The same triple.
abbrev pub same : String → ScaleAction → String → String → ScaleAction → String → Bool
same c a n c' a' n' = str_eq c c' && (str_eq a a' && str_eq n n')

pending_entry :
    (o : Option ControllerScaleExpectations) (a n : String)
    → has_in n (lookup a (entry o).objs_cache) ≡ pending_in o a n
pending_entry none a n = refl
pending_entry (some e) a n = refl

has-insert_name :
    (k j : String) (o : Option Names)
    → has j (insert_name k o) ≡ (if str_eq k j then true else has_in j o)
has-insert_name k j none = refl
has-insert_name k j (some s) = has-add k j s

-- Expecting a triple makes it pending, and changes no other one.
pub pending-expect_scale :
    (r : Cache) (c a n c' a' n' : String)
    → pending (expect_scale r c a n) c' a' n'
      ≡ (if same c a n c' a' n' then true else pending r c' a' n')
unfolding pending expect_scale
pending-expect_scale r c a n c' a' n' =
    let e = entry (lookup c r) in
    let names = insert_name n (lookup a e.objs_cache) in
    let e' : ControllerScaleExpectations = record e { objs_cache = insert a names e.objs_cache } in
    ground (
      arith,
      lookup-insert c c' e' r,
      lookup-insert a a' names e.objs_cache,
      has-insert_name n n' (lookup a e.objs_cache),
      pending_entry (lookup c r) a' n',
      str_eq_iff c c',
      str_eq_iff a a',
    )

pub has_in-all_empty :
    (a n : String) (m : Assoc Names) → all_empty m ≡ true → has_in n (lookup a m) ≡ false
has_in-all_empty a n [] h = refl
has_in-all_empty a n ((b, []) ∷ m) h = ground (arith, has_in-all_empty a n m h)
has_in-all_empty a n ((b, k ∷ s) ∷ m) h = cc

observed :
    (r : Cache) (c a n : String) (e : ControllerScaleExpectations) (s : Names) (c' a' n' : String)
    → lookup c r ≡ some e
    → lookup a e.objs_cache ≡ some s
    → pending (observe_scale r c a n) c' a' n'
      ≡ (if same c a n c' a' n' then false else pending r c' a' n')
unfolding pending observe_scale
observed r c a n e s c' a' n' he hs =
    let objs = insert a (remove n s) e.objs_cache in
    let e' : ControllerScaleExpectations = record e { objs_cache = objs } in
    ground (
      arith,
      lookup-insert c c' e' r,
      lookup-erase c c' r,
      lookup-insert a a' (remove n s) e.objs_cache,
      has-remove n n' s,
      has_in-all_empty a' n' objs,
      str_eq_iff c c',
      str_eq_iff a a',
    )

-- Observing a triple takes it off, and changes no other one: also where the whole entry of the
-- controller is deleted.
pub pending-observe_scale :
    (r : Cache) (c a n c' a' n' : String)
    → pending (observe_scale r c a n) c' a' n'
      ≡ (if same c a n c' a' n' then false else pending r c' a' n')
unfolding pending observe_scale
pending-observe_scale r c a n c' a' n' = elim (Option-cases (lookup c r)) [
  | inl absent ↦ ground (arith, str_eq_iff c c')
  | inr (e, he) ↦ elim (Option-cases (lookup a e.objs_cache)) [
    | inl absent ↦ ground (arith, str_eq_iff c c', str_eq_iff a a')
    | inr (s, hs) ↦ observed r c a n e s c' a' n' he hs
  ]
]
