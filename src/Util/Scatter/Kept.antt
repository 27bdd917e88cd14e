-- ===== src/Util/Scatter/Kept.antt =====
-- Scattering only changes the order.
use kruise.Prelude.{
  ℕ, zero, suc, ◌+◌, ◌*◌, ◌≤◌, ◌<◌, ◌≡◌, refl, sym, ap, ◌∙◌, Bool, true, false, ◌||◌, not, Option,
  some, List, [], ◌∷◌, ◌++◌, is_some, arith, Bool-cases, Option-cases, inl, inr, ◌==◌, ltb, length,
  take, drop, count, count-append, take-append-drop, to_ℕ,
}
use native.Mathlib.Nat.{le-div_iff_mul-le}
use kruise.Util.Scatter.{
  Term, Pods, pod_at, matches, mismatches, put, split, migrate_items, ScatterGroup, round_quotient,
  new_scatter_group, fitted, chosen_group, migrate_groups, split_last,
}

abbrev pub is_missing : Pods → ℕ → Bool
is_missing pods i = not (is_some (pod_at pods i))

-- The two parts of the indexes.
pub record AreParts (term : Term) (pods : Pods) (is : List ℕ) (r : List ℕ × List ℕ) : Type 0 where
  pub parts : (p : ℕ → Bool) → count p r.0 + count p r.1 ≡ count p is
  pub matched : length r.0 ≡ count (λ i. matches term (pod_at pods i)) is
  pub unmatched : length r.1 ≡ count (λ i. mismatches term (pod_at pods i)) is

put-AreParts :
    (term : Term) (pods : Pods) (i : ℕ) (is : List ℕ) (b : Bool) (o : Option (List ℕ × List ℕ))
    (r : List ℕ × List ℕ)
    → matches term (pod_at pods i) ≡ b
    → mismatches term (pod_at pods i) ≡ not b
    → o ≡ some r
    → AreParts term pods is r
    → (r' : List ℕ × List ℕ) × (put b i o ≡ some r') × AreParts term pods (i ∷ is) r'
put-AreParts term pods i is true o (m, u) e f g h = rw g (
  (i ∷ m, u),
  refl,
  record {
    parts = λ p. omega (arith, h.parts p);
    matched = ground (arith, h.matched, e);
    unmatched = ground (arith, h.unmatched, f);
  },
)
put-AreParts term pods i is false o (m, u) e f g h = rw g (
  (m, i ∷ u),
  refl,
  record {
    parts = λ p. omega (arith, h.parts p);
    matched = ground (arith, h.matched, e);
    unmatched = ground (arith, h.unmatched, f);
  },
)

pub split-AreParts :
    (term : Term) (pods : Pods) (is : List ℕ)
    → count (is_missing pods) is ≡ 0
    → (r : List ℕ × List ℕ) × (split term pods is ≡ some r) × AreParts term pods is r
unfolding split
split-AreParts term pods [] h =
    (([], []), refl, record { parts = λ p. refl; matched = refl; unmatched = refl })
split-AreParts term pods (i ∷ is) h = elim (Option-cases (pod_at pods i)) [
  | inl missing ↦ absurd (ground (arith, h, missing))
  | inr (p, here) ↦
      let (r, e, k) = split-AreParts term pods is (ground (arith, h)) in
      rw (here, split)
        (put-AreParts term pods i is (matches term (some p)) (split term pods is) r
          (ap (matches term) here) (ap (mismatches term) here) e k)
]

pub count-take-drop :
    (p : ℕ → Bool) (n : ℕ) (xs : List ℕ) → count p (take n xs) + count p (drop n xs) ≡ count p xs
count-take-drop p n xs =
    sym (count-append p (take n xs) (drop n xs)) ∙ ap (count p) (take-append-drop n xs)

migrate_items-count :
    (p : ℕ → Bool) (src dst : List ℕ) (size : ℕ)
    → let r = migrate_items src dst size in count p r.0 + count p r.1 ≡ count p src + count p dst
unfolding migrate_items
migrate_items-count p src dst size = elim (Bool-cases (length src == 0)) [
  | inl nothing ↦ rw nothing refl
  | inr some_left ↦ elim (Bool-cases (ltb (length src) size)) [
    | inl few ↦ rw (some_left, few) (omega (arith, count-append p dst src))
    | inr many ↦
        rw (some_left, many)
          (omega (arith, count-append p dst (take size src), count-take-drop p size src))
  ]
]

module _ (at_least : ℕ → ℕ → ℕ → ℕ → Bool) where
  pub migrate_groups-count :
      (p : ℕ → Bool) (n : ℕ) (g : ScatterGroup) (m u xs : List ℕ)
      → count p (migrate_groups at_least n g m u xs) ≡ count p xs + count p m + count p u
  unfolding migrate_groups
  migrate_groups-count p zero g m u xs = omega (
    arith,
    count-append p (xs ++ m) u,
    count-append p xs (m ++ u),
    count-append p m u,
    count-append p xs m,
  )
  migrate_groups-count p (suc n) g m u xs =
      let a = migrate_items m xs g.matched_group_size in
      let b = migrate_items u a.1 g.unmatched_group_size in
      omega (
        arith,
        migrate_groups-count p n g a.0 b.0 b.1,
        migrate_items-count p m xs g.matched_group_size,
        migrate_items-count p u a.1 g.unmatched_group_size,
      )

pub split_last-count :
    (p : ℕ → Bool) (i : ℕ) (is : List ℕ)
    → count p (split_last i is).0 + to_ℕ (p (split_last i is).1) ≡ to_ℕ (p i) + count p is
split_last-count p i [] = omega arith
split_last-count p i (j ∷ is) = omega (arith, split_last-count p j is)

round_quotient-pos : (a b : ℕ) → 0 < b → b ≤ a → 0 < round_quotient a b
round_quotient-pos a b h le =
    (le-div_iff_mul-le {k = 2 * b} {x = 1} {y = 2 * a + b} (omega (arith, h))).1 (omega (arith, le))

pub IsSized : Option ScatterGroup → Type 0
IsSized o =
    (g : ScatterGroup) × (o ≡ some g)
    × (0 < g.matched_group_size)
    × (0 < g.unmatched_group_size)
    × (g.unmatched_remainder ≡ 0)

pub new_scatter_group-IsSized : (a b : ℕ) → 0 < a → 0 < b → IsSized (new_scatter_group a b)
unfolding new_scatter_group IsSized
new_scatter_group-IsSized a b ha hb = elim (Bool-cases (ltb a b)) [
  | inl less ↦
      let some_of : (a == 0) ≡ false = ground (arith, ha) in
      rw (less, some_of)
        (
          _,
          refl,
          round_quotient-pos a a ha (omega arith),
          round_quotient-pos b a ha (ground (arith, less)),
          refl,
        )
  | inr more ↦
      let some_of : (b == 0) ≡ false = ground (arith, hb) in
      rw (more, some_of)
        (
          _,
          refl,
          round_quotient-pos a b hb (ground (arith, more)),
          round_quotient-pos b b hb (omega arith),
          refl,
        )
]

unfoldable pub Fits : ℕ → Option ScatterGroup → Type 0
Fits unmatched o = (g : ScatterGroup) × (o ≡ some g) × (g.unmatched_remainder ≤ unmatched)

fitted-Fits :
    (g : ScatterGroup) (a b : ℕ)
    → 0 < g.matched_group_size
    → 0 < g.unmatched_group_size
    → Fits b (fitted g a b)
unfolding Fits
fitted-Fits g a b hm hu =
    let sized : (g.matched_group_size == 0 || g.unmatched_group_size == 0) ≡ false =
      ground (arith, hm, hu) in
    rw sized (_, refl, omega arith)

pub chosen_group-Fits :
    (dense : Bool) (t u : Option ScatterGroup) (a b : ℕ)
    → IsSized t
    → IsSized u
    → Fits b (chosen_group dense t u a b)
unfolding IsSized Fits
chosen_group-Fits true t u a b (g, e, _, _, _) (g', e', _, _, r) =
    rw (e, e') (g', refl, omega (arith, r))
chosen_group-Fits false t u a b (g, e, hm, hu, _) (g', e', _, _, r) =
    rw (e, e') (fitted-Fits g a b hm hu)
