-- ===== src/Util/Requeue/Shortest.antt =====
-- The store keeps the shortest positive duration of each key.
use kruise.Prelude.{
  ◌≡◌, refl, ◌∙◌, sym, ◌⊎◌, inl, inr, String, str_eq, str_eq_refl, false, none, some, List, [], ◌∷◌,
  arith, All, Bool-cases,
}
use mathlib.Core.Path.{subst}
use kruise.Prelude.Int.{ℤ, pos, ◌≤ℤ◌, ◌<ℤ◌}
use kruise.Prelude.Assoc.{lookup, erase, lookup-insert, lookup-erase}
use kruise.Util.Requeue.{
  Duration, DurationStore, is_shorter, zero_duration, or_zero, update, push, pop,
}

-- One of the entries is `a`.
abbrev pub Has : ℤ → List ℤ → Type 0
Has a [] = ⊥
Has a (x ∷ xs) = (x ≡ a) ⊎ Has a xs

-- `r` is the shortest positive one of the durations, or 0 where there is none.
pub record IsShortest (r : ℤ) (ds : List ℤ) : Type 0 where
  pub least : All (λ d. pos 0 <ℤ d → (pos 0 <ℤ r) × (r ≤ℤ d)) ds
  pub taken : Has r ds ⊎ (r ≡ pos 0)

abbrev updates : Duration → List ℤ → Duration
updates rd [] = rd
updates rd (d ∷ ds) = updates (update rd d) ds

-- Pushes for one key, in turn.
pub pushes : String → List ℤ → DurationStore → DurationStore
pushes key [] dm = dm
pushes key (d ∷ ds) dm = pushes key ds (push dm key d)

-- The same for updates of a duration that is held, `held`.
record IsBest (held r : ℤ) (ds : List ℤ) : Type 0 where
  least : All (λ d. pos 0 <ℤ d → (pos 0 <ℤ r) × (r ≤ℤ d)) ds
  held_least : pos 0 <ℤ held → (pos 0 <ℤ r) × (r ≤ℤ held)
  taken : Has r ds ⊎ (r ≡ held)

shorter_step :
    (held d new r : ℤ) (ds : List ℤ)
    → (pos 0 <ℤ held → d ≤ℤ held) × (pos 0 <ℤ d)
    → new ≡ d
    → IsBest new r ds
    → IsBest held r (d ∷ ds)
shorter_step held d new r ds h same ih =
    let (positive, le) = ih.held_least (rw same h.1) in
    let le' : r ≤ℤ d = rw same at le in
    record {
      least = (λ p. (positive, le'), ih.least);
      held_least = λ p. (positive, omega (arith, h.0 p));
      taken = inl (ground (arith, ih.taken));
    }

longer_step :
    (held d new r : ℤ) (ds : List ℤ)
    → (pos 0 <ℤ d → (pos 0 <ℤ held) × (held ≤ℤ d))
    → new ≡ held
    → IsBest new r ds
    → IsBest held r (d ∷ ds)
longer_step held d new r ds h same ih =
    let ih' : IsBest held r ds = rw same at ih in
    record {
      least =
          (λ p. let (a, b) = h p in let (c, e) = ih'.held_least a in (c, omega arith), ih'.least);
      held_least = ih'.held_least;
      taken = ground (arith, ih'.taken);
    }

updates-IsBest :
    (rd : Duration) (ds : List ℤ)
    → pos 0 ≤ℤ rd.duration
    → IsBest rd.duration (updates rd ds).duration ds
updates-IsBest rd [] h = record { least = tt; held_least = λ p. (p, omega arith); taken = inr refl }
updates-IsBest rd (d ∷ ds) h = elim (Bool-cases (is_shorter d rd)) [
  | inl shorter ↦
      let next : (update rd d).duration ≡ d = unfold update in rw shorter in
      let ih = updates-IsBest (update rd d) ds (rw next (ground arith)) in
      shorter_step rd.duration d _ _ ds (ground arith) next ih
  | inr longer ↦
      let next : (update rd d).duration ≡ rd.duration = unfold update in rw longer in
      let ih = updates-IsBest (update rd d) ds (rw next h) in
      longer_step rd.duration d _ _ ds (ground arith) next ih
]

lookup-push :
    (dm : DurationStore) (key : String) (d : ℤ)
    → lookup key (push dm key d) ≡ some (update (or_zero (lookup key dm)) d)
unfolding push
lookup-push dm key d = simp (lookup-insert, str_eq_refl)

lookup-pushes :
    (key : String) (ds : List ℤ) (dm : DurationStore) (rd : Duration)
    → lookup key dm ≡ some rd
    → lookup key (pushes key ds dm) ≡ some (updates rd ds)
unfolding pushes
lookup-pushes key [] dm rd h = h
lookup-pushes key (d ∷ ds) dm rd h =
    lookup-pushes key ds (push dm key d) (update rd d) (lookup-push dm key d ∙ rw h)

pop-some :
    (dm : DurationStore) (key : String) (rd : Duration)
    → lookup key dm ≡ some rd
    → pop dm key ≡ (erase key dm, rd.duration)
unfolding pop
pop-some dm key rd h = rw (h, pop)

pop-none : (dm : DurationStore) (key : String) → lookup key dm ≡ none → pop dm key ≡ (dm, pos 0)
unfolding pop
pop-none dm key h = rw (h, pop)

-- A key that is pushed durations, and held none, pops the shortest positive one of them, or 0 if
-- none is positive; a second pop finds nothing.
pub pop-pushes :
    (dm : DurationStore) (key : String) (d : ℤ) (ds : List ℤ)
    → lookup key dm ≡ none
    → let (dm', r) = pop (pushes key (d ∷ ds) dm) key in
      IsShortest r (d ∷ ds) × (pop dm' key ≡ (dm', pos 0))
unfolding pushes
pop-pushes dm key d ds h =
    let first : lookup key (push dm key d) ≡ some (update zero_duration d) =
      lookup-push dm key d ∙ rw h in
    let all = lookup-pushes key ds (push dm key d) (update zero_duration d) first in
    let best = updates-IsBest zero_duration (d ∷ ds) (omega arith) in
    let held = pushes key ds (push dm key d) in
    let gone : lookup key (erase key held) ≡ none =
      rw (lookup-erase key key held, str_eq_refl key) in
    subst (λ (x : DurationStore × ℤ). IsShortest x.1 (d ∷ ds) × (pop x.0 key ≡ (x.0, pos 0)))
      (sym (pop-some held key _ all))
      (record { least = best.least; taken = best.taken }, pop-none (erase key held) key gone)

-- A push or a pop of one key leaves the other keys as they were.
pop_other :
    (dm : DurationStore) (key other : String) (d : ℤ)
    → str_eq key other ≡ false
    → (pop (push dm key d) other).1 ≡ (pop dm other).1
      × ((pop (pop dm key).0 other).1 ≡ (pop dm other).1)
unfolding pop push
pop_other dm key other d h = ground (
  arith,
  lookup-insert key other (update (or_zero (lookup key dm)) d) dm,
  lookup-erase key other dm,
)
