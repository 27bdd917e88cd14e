-- ===== src/Util/Scatter/Terms/Sorted.antt =====
-- The sort of the waiting indexes by terms only reorders them.
use kruise.Prelude.{
  ℕ, ◌≡◌, refl, Bool, ◌||◌, Option, some, List, [], ◌∷◌, arith, Bool-cases, Option-cases, inl, inr,
  ◌==◌, leb, length, count, All,
}
use kruise.Prelude.Assoc.{Assoc, lookup}
use kruise.Util.Scatter.{Term, Pods, pod_at, scatter_by_terms}
use kruise.Util.Scatter.Kept.{is_missing}
use kruise.Util.Scatter.Order.{AreOfPods, IsReordered, scatter_by_terms-IsReordered}
use kruise.Util.Scatter.Terms.{
  Counter, term_id, counted, has_value, count_term, count_terms, get_scatter_terms, sort,
}

Exists {ℓ} : {A : Type ℓ} → Option A → Type ℓ
Exists {A = A} o = (a : A) × (o ≡ some a)

count_term-Exists :
    (term : Term) (pods : Pods) (is : List ℕ) (c : Counter)
    → count (is_missing pods) is ≡ 0
    → Exists (count_term term pods is c)
unfolding count_term Exists
count_term-Exists term pods [] c h = (c, refl)
count_term-Exists term pods (i ∷ is) c h = elim (Option-cases (pod_at pods i)) [
  | inl missing ↦ absurd (ground (arith, h, missing))
  | inr (p, here) ↦
      let rest = count_term-Exists term pods is in
      let present : count (is_missing pods) is ≡ 0 = ground (arith, h) in
      elim (Bool-cases (has_value (lookup term.key p.labels) term.value)) [
        | inl matched ↦
            rw (here, matched, count_term)
              (rest (counted term c (lookup (term_id term) c.counts)) present)
        | inr other ↦ rw (here, other, count_term) (rest c present)
      ]
]

count_terms-Exists :
    (strategy : List Term) (pods : Pods) (is : List ℕ) (c : Counter)
    → count (is_missing pods) is ≡ 0
    → Exists (count_terms strategy pods is c)
unfolding count_terms Exists
count_terms-Exists [] pods is c h = (c, refl)
count_terms-Exists (term ∷ strategy) pods is c h =
    let (d, e) = count_term-Exists term pods is c h in
    rw (e, count_terms) (count_terms-Exists strategy pods is d h)

All-always {ℓ κ} : {A : Type ℓ} {P : A → Type κ} → ((x : A) → P x) → (xs : List A) → All P xs
All-always h [] = tt
All-always h (x ∷ xs) = (h x, All-always h xs)

-- However float32 numbers compare and the terms are sorted: where the waiting indexes are those of
-- pods, and no more of them match any term, or do not, than pods do, they are sorted without a
-- fault, and every index is there as often as before.
pub sort-IsReordered :
    (sort_stable : Assoc ℕ → List Term → List Term) (at_least : ℕ → ℕ → ℕ → ℕ → Bool)
    (strategy : List Term) (pods : Pods) (is : List ℕ)
    → ((term : Term) → AreOfPods term pods is)
    → IsReordered is (sort sort_stable at_least strategy pods is)
unfolding sort get_scatter_terms Exists
sort-IsReordered sort_stable at_least strategy pods is h =
    let scattered : (terms : List Term) → IsReordered is (scatter_by_terms at_least terms pods is) =
      λ terms. scatter_by_terms-IsReordered at_least terms pods is (All-always h terms) in
    elim (Bool-cases (length strategy == 0 || leb (length is) 1)) [
      | inl nothing ↦ rw nothing (is, refl, λ p. refl)
      | inr more ↦ elim (Bool-cases (length strategy == 1)) [
        | inl one ↦ rw (more, one) (scattered strategy)
        | inr several ↦
            let (c, e) =
              count_terms-Exists strategy pods is (record { terms = []; counts = [] })
                (h (record { key = ""; value = "" })).present in
            rw (more, several, e) (scattered (sort_stable c.counts c.terms))
      ]
    ]
