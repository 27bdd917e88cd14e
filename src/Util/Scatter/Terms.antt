-- ===== src/Util/Scatter/Terms.antt =====
-- `getScatterTerms` and `Sort` of pkg/util/updatesort/scatter_sort.go: the terms in the order of the
-- pods that they match. `sort.SliceStable` is the parameter `sort_stable`, with the counts by which
-- it compares.
pub mod Sorted
use kruise.Prelude.{
  ℕ, ◌+◌, String, str_eq, ◌<>◌, Bool, true, false, ◌||◌, Option, none, some, List, [], ◌∷◌, ◌++◌,
  if◌then◌else◌, ◌==◌, leb, length,
}
use kruise.Prelude.Assoc.{Assoc, lookup, insert}
use kruise.Util.Pods.{Pod}
use kruise.Util.Scatter.{Term, Pods, pod_at, scatter_by_terms}

pub record Counter : Type 0 where
  pub terms : List Term
  pub counts : Assoc ℕ

abbrev pub term_id : Term → String
term_id term = term.key <> ":" <> term.value

-- The term is appended at its first pod.
abbrev pub counted : Term → Counter → Option ℕ → Counter
counted term c none = record {
  terms = c.terms ++ term ∷ [];
  counts = insert (term_id term) 1 c.counts;
}
counted term c (some n) = record c { counts = insert (term_id term) (n + 1) c.counts }

-- The label must be there, unlike in `scatterPodsByRule`.
abbrev pub has_value : Option String → String → Bool
has_value none value = false
has_value (some v) value = str_eq v value

unfoldable pub count_term : Term → Pods → List ℕ → Counter → Option Counter
count_term term pods [] c = some c
count_term term pods (i ∷ is) c =
    let with_it = count_term term pods is (counted term c (lookup (term_id term) c.counts)) in
    let without = count_term term pods is c in
    elim (pod_at pods i) [
      | none ↦ none
      | some p ↦ if has_value (lookup term.key p.labels) term.value then with_it else without
    ]

unfoldable pub count_terms : List Term → Pods → List ℕ → Counter → Option Counter
unfolding count_term
count_terms [] pods is c = some c
count_terms (term ∷ strategy) pods is c = elim (count_term term pods is c) [
  | none ↦ none
  | some d ↦ count_terms strategy pods is d
]

module _ (sort_stable : Assoc ℕ → List Term → List Term) where
  abbrev pub in_order : Option Counter → Option (List Term)
  in_order none = none
  in_order (some c) = some (sort_stable c.counts c.terms)

  unfoldable pub get_scatter_terms : List Term → Pods → List ℕ → Option (List Term)
  unfolding count_terms
  get_scatter_terms strategy pods is =
      if length strategy == 1
      then some strategy
      else in_order (count_terms strategy pods is (record { terms = []; counts = [] }))

  abbrev pub by_terms :
      (ℕ → ℕ → ℕ → ℕ → Bool) → Pods → List ℕ → Option (List Term) → Option (List ℕ)
  by_terms at_least pods is none = none
  by_terms at_least pods is (some terms) = scatter_by_terms at_least terms pods is

  -- `Sort`.
  unfoldable pub sort : (ℕ → ℕ → ℕ → ℕ → Bool) → List Term → Pods → List ℕ → Option (List ℕ)
  unfolding get_scatter_terms
  sort at_least strategy pods is =
      if length strategy == 0 || leb (length is) 1
      then some is
      else by_terms at_least pods is (get_scatter_terms strategy pods is)
