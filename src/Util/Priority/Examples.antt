-- ===== src/Util/Priority/Examples.antt =====
-- A run of the priorities, and the theorem at it.
use kruise.Prelude.{ℕ, ◌≡◌, refl, true, String, [], ◌∷◌, if◌then◌else◌, ◌==◌}
use kruise.Prelude.Assoc.{Assoc}
use kruise.Util.Priority.{PriorityStrategy, comes_first, compare, get_pod_order_priority}
use kruise.Util.Priority.Strict.{IsStrict, comes_first-IsStrict}

abbrev by_order : PriorityStrategy
by_order = record { order_priority = "order" ∷ "rank" ∷ []; weight_priority = [] }

abbrev labels_at : ℕ → Assoc String
labels_at i = if i == 0 then ("rank", "r-12") ∷ [] else if i == 1 then ("order", "3") ∷ [] else []

a_level_comes_before_a_number : comes_first by_order labels_at 1 0 ≡ true
unfolding comes_first compare get_pod_order_priority
a_level_comes_before_a_number = refl

comes_first-IsStrict_example : IsStrict (comes_first by_order labels_at)
comes_first-IsStrict_example = comes_first-IsStrict by_order labels_at
