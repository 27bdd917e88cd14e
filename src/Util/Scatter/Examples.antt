-- ===== src/Util/Scatter/Examples.antt =====
-- Runs of the scattering, and the theorem at them.
use kruise.Prelude.{List, ℕ, ◌*◌, ◌≡◌, refl, Bool, Option, some, [], ◌∷◌, arith, leb}
use kruise.Util.Pods.{Pod}
use kruise.Util.Scatter.{Term, Pods, scatter_by_terms}
use kruise.Util.Scatter.Terms.{get_scatter_terms, sort}
use kruise.Util.Scatter.Terms.Sorted.{sort-IsReordered}
use kruise.Util.Scatter.Order.{IsReordered}

-- The comparison of the quotients, without rounding.
abbrev at_least : ℕ → ℕ → ℕ → ℕ → Bool
at_least a b c d = leb (c * b) (a * d)

abbrev blue : Term
blue = record { key = "color"; value = "blue" }

abbrev a_pod : Option Pod
a_pod = some (record { name = "a"; uid = "a"; labels = []; finalizers = [] })

abbrev a_blue_pod : Option Pod
a_blue_pod =
    some (record { name = "b"; uid = "b"; labels = ("color", "blue") ∷ []; finalizers = [] })

abbrev pods : Pods
pods = a_blue_pod ∷ a_blue_pod ∷ a_blue_pod ∷ a_pod ∷ a_pod ∷ a_pod ∷ []

-- The pods with the label are 0, 1 and 2.
scattered_by_color :
    scatter_by_terms at_least (blue ∷ []) pods (0 ∷ 1 ∷ 2 ∷ 3 ∷ 4 ∷ 5 ∷ [])
    ≡ some (0 ∷ 3 ∷ 4 ∷ 1 ∷ 5 ∷ 2 ∷ [])
unfolding scatter_by_terms
scattered_by_color = refl

-- Two terms, of which the sort keeps the order.
abbrev strategy : List Term
strategy = blue ∷ record { key = "size"; value = "big" } ∷ []

abbrev all_pods : List ℕ
all_pods = 0 ∷ 1 ∷ 2 ∷ 3 ∷ 4 ∷ 5 ∷ []

only_blue_counts :
    get_scatter_terms (λ counts terms. terms) strategy pods all_pods ≡ some (blue ∷ [])
unfolding get_scatter_terms
only_blue_counts = refl

sort-IsReordered_example :
    IsReordered all_pods (sort (λ counts terms. terms) at_least strategy pods all_pods)
sort-IsReordered_example =
    sort-IsReordered (λ counts terms. terms) at_least strategy pods all_pods
      (λ term. record { present = refl; matching = omega arith; others = omega arith })
