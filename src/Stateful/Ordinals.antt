-- ===== src/Stateful/Ordinals.antt =====
-- The ordinals of a StatefulSet, some of which are reserved: `getStatefulSetReplicasRange` of
-- pkg/controller/statefulset/stateful_set_utils.go.
pub mod Range
mod Examples
use kruise.Prelude.{
  ℕ, zero, suc, ◌+◌, Bool, false, ◌||◌, not, Option, none, some, List, [], ◌∷◌, if◌then◌else◌,
  length,
}
use kruise.Prelude.Int.{ℤ, pos, pos_part, eqb_ℤ}

-- `sets.Int`, as the list that it is made of.
abbrev pub has_ordinal : List ℤ → ℕ → Bool
has_ordinal [] n = false
has_ordinal (r ∷ rs) n = eqb_ℤ r (pos n) || has_ordinal rs n

-- The loop: `left` replicas are still to be counted, and `count` is the next ordinal. `none` is the
-- end of the fuel.
replicas_from : ℕ → List ℤ → ℕ → ℕ → Option ℕ
replicas_from zero reserved left count = none
replicas_from (suc fuel) reserved zero count = some count
replicas_from (suc fuel) reserved (suc left) count =
    let skipped = replicas_from fuel reserved (suc left) (count + 1) in
    let counted = replicas_from fuel reserved left (count + 1) in
    if has_ordinal reserved count then skipped else counted

-- A round for each replica and each reserved ordinal, and one more, is enough.
unfoldable pub get_stateful_set_replicas_range : ℤ → List ℤ → Option ℕ
unfolding replicas_from
get_stateful_set_replicas_range replicas reserve_ordinals =
    replicas_from (pos_part replicas + length reserve_ordinals + 1) reserve_ordinals
      (pos_part replicas) 0
