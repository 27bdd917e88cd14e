-- ===== src/CloneSet/Updating/Sync.antt =====
-- What one sync of the revision does to the pods.
use kruise.Prelude.{
  if◌then◌else◌, String, ℕ, zero, suc, ◌+◌, ◌<◌, ◌≡◌, refl, Bool, true, false, ◌||◌, Option, some,
  List, [], ◌∷◌, ◌++◌, arith, Bool-cases, Option-cases, inl, inr, All, get_elem?, length,
}
use kruise.Prelude.Int.{ℤ, pos, ltb_ℤ, eqb_ℤ}
use kruise.Util.Pods.{Pod, equal_to_revision_hash}
use kruise.CloneSet.Diff.{ExpectationDiffs, calculate_diffs_with_expectation}
use kruise.CloneSet.Limit.Allowed.{limit_update_indexes-IsAllowed, limit_update_indexes-total}
use kruise.CloneSet.Writes.{Written, Change}
use kruise.CloneSet.Refresh.{refresh_pods}
use kruise.CloneSet.Updating.{
  Update, can_update, wait_update_indexes, admitted, update_pod, update_pods_at, pushed, update,
}
use kruise.CloneSet.Updating.Paths.{IsOne, IsUpdatable, IsLawful, can_update-IsUpdatable}
use kruise.CloneSet.Updating.Lawful.{refresh_pods-keeps}
use kruise.CloneSet.Updating.Changes.{update_pod-keeps}

get_elem?-bound : (pods : List Pod) (i : ℕ) (p : Pod) → get_elem? pods i ≡ some p → i < length pods
get_elem?-bound [] i p e = absurd (ground arith)
get_elem?-bound (q ∷ pods) zero p e = omega arith
get_elem?-bound (q ∷ pods) (suc i) p e = omega (arith, get_elem?-bound pods i p e)

All-map {ℓ κ μ} :
    {A : Type ℓ} {P : A → Type κ} {Q : A → Type μ} (xs : List A)
    → ((x : A) → P x → Q x)
    → All P xs
    → All Q xs
All-map [] f h = tt
All-map (x ∷ xs) f h = (f x h.0, All-map xs f h.1)

All-prefix {ℓ κ} : {A : Type ℓ} (P : A → Type κ) (xs ys : List A) → All P (xs ++ ys) → All P xs
All-prefix P [] ys h = tt
All-prefix P (x ∷ xs) ys h = (h.0, All-prefix P xs ys h.1)

-- The pods of a list that stand in `all` from `n` on.
module _ (all : List Pod) where
  abbrev StandsAt : ℕ → List Pod → Type 0
  StandsAt n pods = (k : ℕ) (p : Pod) → get_elem? pods k ≡ some p → get_elem? all (k + n) ≡ some p

  tail-StandsAt :
      (n : ℕ) (q : Pod) (pods : List Pod) → StandsAt n (q ∷ pods) → StandsAt (n + 1) pods
  tail-StandsAt n q pods h k p e =
      let same : k + (n + 1) ≡ suc k + n = omega arith in rw same (h (suc k) p e)

  head-StandsAt :
      (n : ℕ) (q : Pod) (pods : List Pod) → StandsAt n (q ∷ pods) → get_elem? all n ≡ some q
  head-StandsAt n q pods h = let same : n ≡ 0 + n = omega arith in rw same (h 0 q refl)

  are_ones : (n : ℕ) (pods : List Pod) → StandsAt n pods → All (IsOne all) pods
  are_ones n [] h = tt
  are_ones n (q ∷ pods) h =
      ((n, head-StandsAt n q pods h), are_ones (n + 1) pods (tail-StandsAt n q pods h))

all-StandsAt : (pods : List Pod) → StandsAt pods 0 pods
all-StandsAt pods k p e = let same : k + 0 ≡ k = omega arith in rw same e

module _ (u : Update) (num : ℤ) (all : List Pod) where
  -- The index is that of a pod that may be updated.
  abbrev pub IsWaiting : ℕ → Type 0
  IsWaiting i = (p : Pod) × (get_elem? all i ≡ some p) × IsUpdatable u num p

  wait_update_indexes-IsWaiting :
      (pods : List Pod) (n : ℕ)
      → StandsAt all n pods
      → All IsWaiting (wait_update_indexes u num pods n)
  unfolding wait_update_indexes
  wait_update_indexes-IsWaiting [] n h = tt
  wait_update_indexes-IsWaiting (q ∷ pods) n h =
      let rest = wait_update_indexes-IsWaiting pods (n + 1) (tail-StandsAt all n q pods h) in
      elim (Bool-cases (can_update u num q)) [
        | inl may ↦
            rw may ((q, head-StandsAt all n q pods h, can_update-IsUpdatable u num q may), rest)
        | inr waits ↦ rw waits rest
      ]

  abbrev AreLawful : List Change → Type 0
  AreLawful changes = All (IsLawful u num all) changes

  pushed-keeps :
      (delay : ℤ) (w : Written) → AreLawful w.changes → AreLawful (pushed u delay w).changes
  pushed-keeps delay w h = elim (Bool-cases (ltb_ℤ (pos 0) delay)) [
    | inl yes' ↦ rw yes' h
    | inr no' ↦ rw no' h
  ]

  abbrev IsDone : Option (Written × Bool) → Type 0
  IsDone o = (r : Written × Bool) × (o ≡ some r) × AreLawful r.0.changes

  update_pods_at-IsDone :
      (target : String) (is : List ℕ) (w : Written)
      → All IsWaiting is
      → AreLawful w.changes
      → IsDone (update_pods_at u target all is w)
  unfolding update_pods_at
  update_pods_at-IsDone target [] w q h = ((w, false), refl, h)
  update_pods_at-IsDone target (i ∷ is) w q h =
      let (pod, at, may) = q.0 in
      let s = update_pod u target pod w in
      let after = pushed u s.duration s.written in
      let kept =
        pushed-keeps s.duration s.written
          (update_pod-keeps u num all target pod w ((i, at), may) h) in
      elim (Option-cases (admitted u w pod)) [
        | inl error ↦ rw (at, error, update_pods_at) ((w, true), refl, h)
        | inr (false, no') ↦ rw (at, no', update_pods_at) ((_, false), refl, h)
        | inr (true, yes') ↦ elim (Bool-cases s.failed) [
          | inl bad ↦ rw (at, yes', bad, update_pods_at) ((after, true), refl, kept)
          | inr good ↦
              rw (at, yes', good, update_pods_at) (update_pods_at-IsDone target is after q.1 kept)
        ]
      ]

-- The numbers that `Update` goes by.
abbrev pub numbers : Update → List Pod → ExpectationDiffs
numbers u pods =
    calculate_diffs_with_expectation u.env u.cs pods u.current_revision u.update_revision
      (λ p. equal_to_revision_hash p u.update_revision)

-- An order that leaves nothing but what it was given.
abbrev pub GivesBack : (List ℕ → List ℕ) → Type 1
GivesBack sort = (P : ℕ → Type 0) (is : List ℕ) → All P is → All P (sort is)

-- With no change made before, and if the indexes are only put in order: the sync comes to an end
-- without a fault. Whatever the API server, the budgets and the in-place update answer: a pod is
-- moved along a step of the lifecycle only; and only a pod that is not being deleted and not of the
-- revision to which the pods are to go is changed in place, in a state that allows it, or marked to
-- be created anew.
pub update-IsLawful :
    (u : Update) (pods : List Pod) (w : Written)
    → w.changes ≡ []
    → GivesBack (u.sort pods)
    → (r : Written × Bool) × (update u pods w ≡ some r)
      × All (IsLawful u (numbers u pods).update_num pods) r.0.changes
unfolding update
update-IsLawful u pods w empty sorts =
    let diff = numbers u pods in
    let num = diff.update_num in
    let r = refresh_pods u.api u.in_place u.key u.cs.lifecycle u.update_revision pods w false in
    let target = if ltb_ℤ num (pos 0) then u.current_revision else u.update_revision in
    let kept =
      refresh_pods-keeps u num pods u.api u.in_place u.key u.cs.lifecycle u.update_revision pods w
        false (are_ones pods 0 pods (all-StandsAt pods)) (rw empty tt) in
    let waiting = u.sort pods (wait_update_indexes u num pods 0) in
    let ready =
      sorts (IsWaiting u num pods) _
        (wait_update_indexes-IsWaiting u num pods pods 0 (all-StandsAt pods)) in
    let (chosen, found) =
      limit_update_indexes-total u.env u.cs.min_ready_seconds pods diff waiting target
        (All-map waiting (λ i q. get_elem?-bound pods i q.0 q.1) ready) in
    let allowed =
      limit_update_indexes-IsAllowed u.env u.cs.min_ready_seconds pods diff waiting chosen target
        found in
    let may : All (IsWaiting u num pods) chosen =
      All-prefix (IsWaiting u num pods) chosen allowed.rest (rw allowed.is_prefix ready) in
    let all_done = update_pods_at-IsDone u num pods target chosen r.written may kept in
    elim (Bool-cases r.failed) [
      | inl bad ↦ rw bad ((r.written, true), refl, kept)
      | inr good ↦ elim (Bool-cases (r.modified || u.cs.update_strategy.paused)) [
        | inl waits ↦ rw (good, waits) ((r.written, false), refl, kept)
        | inr goes_on ↦ elim (Bool-cases (eqb_ℤ num (pos 0))) [
          | inl rests ↦ rw (good, goes_on, rests) ((r.written, false), refl, kept)
          | inr moves ↦ rw (good, goes_on, moves, found) all_done
        ]
      ]
    ]
