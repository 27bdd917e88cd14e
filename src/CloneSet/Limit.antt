-- ===== src/CloneSet/Limit.antt =====
-- `limitUpdateIndexes` of pkg/controller/cloneset/sync/cloneset_update.go: how many of the pods
-- that wait for an update may be updated now. `none` is the panic of an index out of range.
pub mod Allowed
mod Examples
use kruise.Prelude.{
  ℕ, ◌+◌, String, Bool, true, false, ◌&&◌, not, Option, none, some, List, [], ◌∷◌, if◌then◌else◌,
  length, get_elem?, take, count, ltb, leb,
}
use kruise.Prelude.Int.{ℤ, pos, leb_ℤ, ltb_ℤ, pos_part}
use kruise.Util.Tools.{int_abs}
use kruise.Util.Pods.{Pod, equal_to_revision_hash}
use kruise.CloneSet.Types.{Env, is_pod_available}
use kruise.CloneSet.Diff.{ExpectationDiffs}

infixl 10 ◌>>=◌
abbrev pub ◌>>=◌ {ℓ κ} : {A : Type ℓ} {B : Type κ} → Option A → (A → Option B) → Option B
none >>= k = none
some a >>= k = k a

-- `s[:n]`, which is a fault where `n` is beyond the length: room behind it is not counted on.
abbrev pub reslice : ℕ → List ℕ → Option (List ℕ)
reslice n is = if leb n (length is) then some (take n is) else none

-- A slice is cut only if it is longer.
unfoldable pub shortened : ℕ → List ℕ → Option (List ℕ)
shortened n is = if ltb n (length is) then reslice n is else some is

module _ (env : Env) (min_ready_seconds : ℤ) (pods : List Pod) where
  abbrev pub is_available : Pod → Bool
  is_available p = is_pod_available env p min_ready_seconds

  -- The number of pods that may be updated: the loop over the waiting indexes, with the unavailable
  -- pods of all revisions and of the target revision.
  can_update_count : ℤ → ℕ → ℕ → ℕ → List ℕ → Option ℕ
  can_update_count max_unavailable unavailable target_unavailable can [] = some can
  can_update_count max_unavailable unavailable target_unavailable can (i ∷ is) =
      let continue =
        λ (next : ℕ). can_update_count max_unavailable next target_unavailable (can + 1) is in
      if leb_ℤ max_unavailable (pos (target_unavailable + can))
      then some can
      else elim (get_elem? pods i) [
        | none ↦ none
        | some p ↦ elim (is_available p) [
          | true ↦ elim (leb_ℤ max_unavailable (pos unavailable)) [
            | true ↦ some can
            | false ↦ continue (unavailable + 1)
          ]
          | false ↦ continue unavailable
        ]
      ]

  unfoldable pub limit_update_indexes : ExpectationDiffs → List ℕ → String → Option (List ℕ)
  unfolding can_update_count shortened
  limit_update_indexes diff wait_update_indexes target_revision_hash =
      let unavailable = count (λ p. not (is_available p)) pods in
      let target_unavailable =
        count (λ p. not (is_available p) && equal_to_revision_hash p target_revision_hash) pods in
      do
        waiting ← shortened (pos_part (int_abs diff.update_num)) wait_update_indexes
        n ← can_update_count diff.update_max_unavailable unavailable target_unavailable 0 waiting
        shortened n waiting
