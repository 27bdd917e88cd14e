-- ===== src/Util/Scatter.antt =====
-- pkg/util/updatesort/scatter_sort.go: the indexes of pods that wait for an update are scattered, so
-- that pods with a label stand apart. `none` is a panic: an index out of range, or of no pod, or a
-- division by zero.
pub mod Kept
pub mod Order
pub mod Terms
mod Examples
use kruise.Prelude.{
  ℕ, zero, suc, ◌+◌, ◌-◌, ◌*◌, ◌/◌, String, str_eq, Bool, true, false, ◌&&◌, ◌||◌, not, Option,
  none, some, List, [], ◌∷◌, ◌++◌, is_some, if◌then◌else◌, ◌==◌, ltb, leb, length, get_elem?, take,
  drop, count,
}
use Prim.Native.Nat.{min}
use kruise.Util.Pods.{Pod, label}

pub record Term : Type 0 where
  pub key : String
  pub value : String

-- A slice of pods, some of which may be nil.
abbrev pub Pods : Type 0
Pods = List (Option Pod)

abbrev pub pod_at : Pods → ℕ → Option Pod
pod_at [] i = none
pod_at (p ∷ pods) zero = p
pod_at (p ∷ pods) (suc i) = pod_at pods i

abbrev pub matches : Term → Option Pod → Bool
matches term none = false
matches term (some p) = str_eq (label term.key p) term.value

abbrev pub mismatches : Term → Option Pod → Bool
mismatches term none = false
mismatches term (some p) = not (str_eq (label term.key p) term.value)

abbrev pub put : Bool → ℕ → Option (List ℕ × List ℕ) → Option (List ℕ × List ℕ)
put b i none = none
put true i (some (matched, unmatched)) = some (i ∷ matched, unmatched)
put false i (some (matched, unmatched)) = some (matched, i ∷ unmatched)

-- The matched and the unmatched indexes.
unfoldable pub split : Term → Pods → List ℕ → Option (List ℕ × List ℕ)
split term pods [] = some ([], [])
split term pods (i ∷ is) =
    let rest = split term pods is in
    elim (pod_at pods i) [ none ↦ none | some p ↦ put (matches term (some p)) i rest ]

-- `migrateItems`: what is left, and what is there then.
unfoldable pub migrate_items : List ℕ → List ℕ → ℕ → List ℕ × List ℕ
migrate_items src dst size =
    if length src == 0
    then (src, dst)
    else if ltb (length src) size
    then ([], dst ++ src)
    else (drop size src, dst ++ take size src)

pub record ScatterGroup : Type 0 where
  pub group_num : ℕ
  pub matched_group_size : ℕ
  pub unmatched_group_size : ℕ
  pub unmatched_remainder : ℕ

-- `math.Round` of a quotient of counts, which a float64 holds well enough: halves go up.
abbrev pub round_quotient : ℕ → ℕ → ℕ
round_quotient a b = (2 * a + b) / (2 * b)

unfoldable pub new_scatter_group : ℕ → ℕ → Option ScatterGroup
new_scatter_group matched unmatched =
    let n = if ltb matched unmatched then matched else unmatched in
    if n == 0
    then none
    else some (record {
      group_num = n;
      matched_group_size = round_quotient matched n;
      unmatched_group_size = round_quotient unmatched n;
      unmatched_remainder = 0;
    })

abbrev pub fitted : ScatterGroup → ℕ → ℕ → Option ScatterGroup
fitted total update_matched update_unmatched =
    let a = update_matched / total.matched_group_size in
    let b = update_unmatched / total.unmatched_group_size in
    let n = if ltb a b then a else b in
    if total.matched_group_size == 0 || total.unmatched_group_size == 0
    then none
    else some (record {
      group_num = n;
      matched_group_size = total.matched_group_size;
      unmatched_group_size = total.unmatched_group_size;
      unmatched_remainder = update_unmatched - n * total.unmatched_group_size;
    })

abbrev pub chosen_group :
    Bool → Option ScatterGroup → Option ScatterGroup → ℕ → ℕ → Option ScatterGroup
chosen_group dense none update a b = none
chosen_group dense (some total) none a b = none
chosen_group dense (some total) (some update) a b = if dense then some update else fitted total a b

-- The indexes before the last, and the last.
abbrev pub split_last : ℕ → List ℕ → List ℕ × ℕ
split_last i [] = ([], i)
split_last i (j ∷ is) = let (before, last) = split_last j is in (i ∷ before, last)

-- `at_least tu tm uu um` compares the quotients of float32 numbers, tu/tm >= uu/um.
module _ (at_least : ℕ → ℕ → ℕ → ℕ → Bool) where
  unfoldable pub calculate_group_by_density : ℕ → ℕ → ℕ → ℕ → Option ScatterGroup
  unfolding new_scatter_group
  calculate_group_by_density total_matched total_unmatched update_matched update_unmatched =
      chosen_group (at_least total_unmatched total_matched update_unmatched update_matched)
        (new_scatter_group total_matched total_unmatched)
        (new_scatter_group update_matched update_unmatched) update_matched update_unmatched

  -- The groups, one after the other, and then what is left.
  unfoldable pub migrate_groups : ℕ → ScatterGroup → List ℕ → List ℕ → List ℕ → List ℕ
  unfolding migrate_items
  migrate_groups zero g matched unmatched indexes = indexes ++ matched ++ unmatched
  migrate_groups (suc n) g matched unmatched indexes =
      let (matched', indexes') = migrate_items matched indexes g.matched_group_size in
      let (unmatched', indexes'') = migrate_items unmatched indexes' g.unmatched_group_size in
      migrate_groups n g matched' unmatched' indexes''

  -- The remainder of the unmatched ones stands first.
  abbrev pub grouped : List ℕ → List ℕ → ℕ → Option ScatterGroup → Option (List ℕ)
  grouped matched unmatched last none = none
  grouped matched unmatched last (some g) =
      let r = g.unmatched_remainder in
      if ltb (length unmatched) r
      then none
      else some
          (migrate_groups g.group_num g matched (drop r unmatched) (take r unmatched) ++ last ∷ [])

  abbrev pub scattered : Term → Pods → List ℕ → Option (List ℕ × List ℕ) → Option (List ℕ)
  scattered term pods indexes none = none
  scattered term pods indexes (some ([], unmatched)) = some indexes
  scattered term pods indexes (some (i ∷ is, unmatched)) =
      let (matched, last) = split_last i is in
      if leb (length (i ∷ is)) 1 || leb (length unmatched) 1
      then some indexes
      else grouped matched unmatched last (
          calculate_group_by_density (count (matches term) pods - 1) (count (mismatches term) pods)
            (length matched) (length unmatched))

  unfoldable pub scatter_pods_by_rule : Term → Pods → List ℕ → Option (List ℕ)
  unfolding split calculate_group_by_density migrate_groups
  scatter_pods_by_rule term pods indexes = scattered term pods indexes (split term pods indexes)

  -- The loop of `Sort`, over the terms in the order of `getScatterTerms`.
  unfoldable pub scatter_by_terms : List Term → Pods → List ℕ → Option (List ℕ)
  unfolding scatter_pods_by_rule
  scatter_by_terms [] pods indexes = some indexes
  scatter_by_terms (t ∷ terms) pods indexes = elim (scatter_pods_by_rule t pods indexes) [
    | none ↦ none
    | some next ↦ scatter_by_terms terms pods next
  ]
