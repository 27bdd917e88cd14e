-- ===== src/Expectations/Scale/History.antt =====
-- What the cache answers after any history of calls, against a set of triples.
use kruise.Prelude.{
  ℕ, ◌≡◌, refl, sym, ◌∙◌, ◌↔◌, String, str_eq, str_eq_iff, str_eq_refl, Bool, true, false, none,
  some, List, [], ◌∷◌, arith, if◌then◌else◌, Bool-cases, Option-cases, inl, inr,
}
use kruise.Prelude.Assoc.{Assoc, lookup, insert, erase, lookup-insert, lookup-erase, Names, remove}
use kruise.Expectations.Scale.{
  ScaleAction, ControllerScaleExpectations, Cache, all_empty, expect_scale, observe_scale,
  first_unsatisfied, first_time, entry, satisfied_expectations, delete_expectations,
}
use kruise.Expectations.Scale.Pending.{
  pending, has_in, same, pending-expect_scale, pending-observe_scale, has_in-all_empty,
}

-- No key occurs twice, as in every Go map.
abbrev pub IsMap {ℓ} : {V : Type ℓ} → Assoc V → Type ℓ
IsMap [] = Unit
IsMap ((k, v) ∷ m) = (lookup k m ≡ none) × IsMap m

insert-IsMap {ℓ} : {V : Type ℓ} (k : String) (v : V) (m : Assoc V) → IsMap m → IsMap (insert k v m)
insert-IsMap k v [] h = (refl, tt)
insert-IsMap k v ((j, w) ∷ m) h =
    ground (arith, str_eq_iff j k, str_eq_iff k j, lookup-insert k j v m, insert-IsMap k v m h.1)

abbrev pub IsWellFormed : Cache → Type 0
IsWellFormed r =
    (c : String) (e : ControllerScaleExpectations) → lookup c r ≡ some e → IsMap e.objs_cache

-- In a map the first action with names is found by its key.
first_unsatisfied-has_in :
    (m : Assoc Names) (a : ScaleAction) (s : Names)
    → IsMap m
    → first_unsatisfied m ≡ some (a, s)
    → (n : String) × (has_in n (lookup a m) ≡ true)
first_unsatisfied-has_in [] a s h e = cc
first_unsatisfied-has_in ((b, []) ∷ m) a s h e =
    let (n, found) = first_unsatisfied-has_in m a s h.1 e in (n, ground (arith, str_eq_iff b a))
first_unsatisfied-has_in ((b, k ∷ r) ∷ m) a s h e =
    (k, ground (arith, str_eq_iff b a, str_eq_refl k))

first_unsatisfied-none : (m : Assoc Names) → first_unsatisfied m ≡ none → all_empty m ≡ true
first_unsatisfied-none [] e = refl
first_unsatisfied-none ((b, []) ∷ m) e = first_unsatisfied-none m e
first_unsatisfied-none ((b, k ∷ s) ∷ m) e = cc

pub satisfied-none :
    (now : ℕ) (r : Cache) (c : String)
    → (satisfied_expectations now r c).satisfied ≡ true
    → (a n : String) → pending r c a n ≡ false
unfolding satisfied_expectations pending
satisfied-none now r c h a n = elim (Option-cases (lookup c r)) [
  | inl absent ↦ rw absent
  | inr (e, he) ↦ elim (Option-cases (first_unsatisfied e.objs_cache)) [
    | inl empty ↦
        rw he (has_in-all_empty a n e.objs_cache (first_unsatisfied-none e.objs_cache empty))
    | inr ((b, s), dirty) ↦ ground arith
  ]
]

none-satisfied :
    (now : ℕ) (r : Cache) (c : String)
    → IsWellFormed r
    → ((a n : String) → pending r c a n ≡ false)
    → (satisfied_expectations now r c).satisfied ≡ true
unfolding satisfied_expectations pending
none-satisfied now r c wf h = elim (Option-cases (lookup c r)) [
  | inl absent ↦ rw (absent, satisfied_expectations)
  | inr (e, he) ↦ elim (Option-cases (first_unsatisfied e.objs_cache)) [
    | inl empty ↦ rw (he, satisfied_expectations) (rw empty)
    | inr ((b, s), dirty) ↦
        let (n, found) = first_unsatisfied-has_in e.objs_cache b s (wf c e he) dirty in
        ground (arith, h b n)
  ]
]

insert-IsWellFormed :
    (r : Cache) (c : String) (e : ControllerScaleExpectations)
    → IsWellFormed r
    → IsMap e.objs_cache
    → IsWellFormed (insert c e r)
insert-IsWellFormed r c e wf h c' e' found = elim (Bool-cases (str_eq c c')) [
  | inl hit ↦
      let same : some e ≡ some e' = ground (arith, lookup-insert c c' e r) in
      let eq : e ≡ e' = cc in rw (← eq) h
  | inr miss ↦ wf c' e' (ground (arith, lookup-insert c c' e r))
]

erase-IsWellFormed : (r : Cache) (c : String) → IsWellFormed r → IsWellFormed (erase c r)
erase-IsWellFormed r c wf c' e' found = wf c' e' (ground (arith, lookup-erase c c' r))

entry-IsMap : (r : Cache) (c : String) → IsWellFormed r → IsMap (entry (lookup c r)).objs_cache
entry-IsMap r c wf = elim (Option-cases (lookup c r)) [
  | inl absent ↦ rw absent tt
  | inr (e, he) ↦ rw he (wf c e he)
]

expect_scale-IsWellFormed :
    (r : Cache) (c a n : String) → IsWellFormed r → IsWellFormed (expect_scale r c a n)
unfolding expect_scale
expect_scale-IsWellFormed r c a n wf =
    insert-IsWellFormed r c _ wf (insert-IsMap a _ _ (entry-IsMap r c wf))

observe_scale-IsWellFormed :
    (r : Cache) (c a n : String) → IsWellFormed r → IsWellFormed (observe_scale r c a n)
unfolding observe_scale
observe_scale-IsWellFormed r c a n wf = elim (Option-cases (lookup c r)) [
  | inl absent ↦ rw (absent, observe_scale) wf
  | inr (e, he) ↦ elim (Option-cases (lookup a e.objs_cache)) [
    | inl absent ↦ rw (he, observe_scale) (rw absent wf)
    | inr (s, hs) ↦
        let objs = insert a (remove n s) e.objs_cache in
        elim (Bool-cases (all_empty objs)) [
          | inl done ↦ rw (he, observe_scale) (rw hs (rw done (erase-IsWellFormed r c wf)))
          | inr more ↦
              rw (he, observe_scale)
                (rw hs (rw more (insert-IsWellFormed r c _ wf (insert-IsMap a _ _ (wf c e he)))))
        ]
  ]
]

satisfied-IsWellFormed :
    (now : ℕ) (r : Cache) (c : String)
    → IsWellFormed r
    → IsWellFormed (satisfied_expectations now r c).cache
unfolding satisfied_expectations
satisfied-IsWellFormed now r c wf = elim (Option-cases (lookup c r)) [
  | inl absent ↦ rw (absent, satisfied_expectations) wf
  | inr (e, he) ↦ elim (Option-cases (first_unsatisfied e.objs_cache)) [
    | inl empty ↦ rw (he, satisfied_expectations) (rw empty (erase-IsWellFormed r c wf))
    | inr ((a, s), dirty) ↦
        rw (he, satisfied_expectations) (rw dirty (insert-IsWellFormed r c _ wf (wf c e he)))
  ]
]

pending-erase :
    (r : Cache) (c c' a n : String)
    → pending (erase c r) c' a n ≡ (if str_eq c c' then false else pending r c' a n)
unfolding pending
pending-erase r c c' a n = ground (arith, lookup-erase c c' r)

abbrev asked : ℕ → ControllerScaleExpectations → ControllerScaleExpectations
asked now e = record e {
  first_unsatisfied_timestamp = some (first_time e.first_unsatisfied_timestamp now);
}

-- Asking changes no pending triple.
pub pending-satisfied :
    (now : ℕ) (r : Cache) (c c' a n : String)
    → pending (satisfied_expectations now r c).cache c' a n ≡ pending r c' a n
unfolding satisfied_expectations pending
pending-satisfied now r c c' a n = elim (Option-cases (lookup c r)) [
  | inl absent ↦ rw (absent, satisfied_expectations)
  | inr (e, he) ↦ elim (Option-cases (first_unsatisfied e.objs_cache)) [
    | inl empty ↦ ground (
      arith,
      lookup-erase c c' r,
      has_in-all_empty a n e.objs_cache (first_unsatisfied-none e.objs_cache empty),
      str_eq_iff c c',
    )
    | inr ((b, s), dirty) ↦ ground (arith, lookup-insert c c' (asked now e) r, str_eq_iff c c')
  ]
]

-- The methods that a controller and its event handlers call.
pub data Call : Type 0 where
  expects observes : String → ScaleAction → String → Call
  asks : ℕ → String → Call
  deletes : String → Call

pub step : Cache → Call → Cache
step r (expects c a n) = expect_scale r c a n
step r (observes c a n) = observe_scale r c a n
step r (asks now c) = (satisfied_expectations now r c).cache
step r (deletes c) = delete_expectations r c

-- The history is given with its latest call first.
unfoldable pub run : List Call → Cache
unfolding step
run [] = []
run (x ∷ xs) = step (run xs) x

-- The specification: a triple is awaited if, of the calls that touch it, the latest expects it.
abbrev pub awaited : List Call → String → ScaleAction → String → Bool
awaited [] c' a' n' = false
awaited (expects c a n ∷ xs) c' a' n' =
    let rest = awaited xs c' a' n' in if same c a n c' a' n' then true else rest
awaited (observes c a n ∷ xs) c' a' n' =
    let rest = awaited xs c' a' n' in if same c a n c' a' n' then false else rest
awaited (asks now c ∷ xs) c' a' n' = awaited xs c' a' n'
awaited (deletes c ∷ xs) c' a' n' =
    let rest = awaited xs c' a' n' in if str_eq c c' then false else rest

run-IsWellFormed : (xs : List Call) → IsWellFormed (run xs)
unfolding run step delete_expectations
run-IsWellFormed [] = λ c e h. cc
run-IsWellFormed (expects c a n ∷ xs) =
    expect_scale-IsWellFormed (run xs) c a n (run-IsWellFormed xs)
run-IsWellFormed (observes c a n ∷ xs) =
    observe_scale-IsWellFormed (run xs) c a n (run-IsWellFormed xs)
run-IsWellFormed (asks now c ∷ xs) = satisfied-IsWellFormed now (run xs) c (run-IsWellFormed xs)
run-IsWellFormed (deletes c ∷ xs) = erase-IsWellFormed (run xs) c (run-IsWellFormed xs)

-- After any history of calls the cache holds exactly the triples that are still awaited.
pub pending-run : (xs : List Call) (c a n : String) → pending (run xs) c a n ≡ awaited xs c a n
unfolding run step delete_expectations
pending-run [] c a n = unfold pending in refl
pending-run (expects c a n ∷ xs) c' a' n' =
    rw (pending-expect_scale (run xs) c a n c' a' n', pending-run xs c' a' n')
pending-run (observes c a n ∷ xs) c' a' n' =
    rw (pending-observe_scale (run xs) c a n c' a' n', pending-run xs c' a' n')
pending-run (asks now c ∷ xs) c' a' n' =
    pending-satisfied now (run xs) c c' a' n' ∙ pending-run xs c' a' n'
pending-run (deletes c ∷ xs) c' a' n' =
    rw (pending-erase (run xs) c c' a' n', pending-run xs c' a' n')

-- After any history of calls the controller is told to go on exactly when none of its triples is
-- awaited any more.
pub satisfied-run :
    (now : ℕ) (xs : List Call) (c : String)
    → ((satisfied_expectations now (run xs) c).satisfied ≡ true)
      ↔ ((a n : String) → awaited xs c a n ≡ false)
satisfied-run now xs c = (
  λ ok a n. sym (pending-run xs c a n) ∙ satisfied-none now (run xs) c ok a n,
  λ h. none-satisfied now (run xs) c (run-IsWellFormed xs) (λ a n. pending-run xs c a n ∙ h a n),
)
