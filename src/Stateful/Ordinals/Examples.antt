-- ===== src/Stateful/Ordinals/Examples.antt =====
-- Runs of the range of ordinals, and the theorem at them.
use kruise.Prelude.{ℕ, ◌≡◌, refl, some, List, [], ◌∷◌}
use kruise.Prelude.Int.{ℤ, pos, pos_part}
use kruise.Stateful.Ordinals.{get_stateful_set_replicas_range}
use kruise.Stateful.Ordinals.Range.{IsRange, get_stateful_set_replicas_range-IsRange}

-- Four replicas, of which none may have the ordinal 1 or 3.
abbrev reserved : List ℤ
reserved = pos 1 ∷ pos 3 ∷ []

six : get_stateful_set_replicas_range (pos 4) reserved ≡ some 6
unfolding get_stateful_set_replicas_range
six = refl

get_stateful_set_replicas_range-IsRange_example :
    (n : ℕ) × (get_stateful_set_replicas_range (pos 4) reserved ≡ some n)
    × IsRange reserved (pos_part (pos 4)) n
get_stateful_set_replicas_range-IsRange_example =
    get_stateful_set_replicas_range-IsRange (pos 4) reserved
