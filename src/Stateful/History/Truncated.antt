-- ===== src/Stateful/History/Truncated.antt =====
-- What `truncateHistory` leaves of the history.
use kruise.Prelude.{
  ℕ, zero, suc, ◌+◌, ◌-◌, ◌≤◌, ◌<◌, ◌≡◌, ◌⊎◌, inl, inr, String, str_eq, str_eq_iff, ◌≢◌, Bool, true,
  false, Option, none, some, List, [], ◌∷◌, arith, Bool-cases, length, leb, All,
}
use Prim.Native.Nat.{min}
use kruise.Prelude.Int.{ℤ, pos, pos_part, neg_part, parts_apart, -ℤ_parts, leb_ℤ, ◌-ℤ◌, ◌≤ℤ◌, ◌<ℤ◌}
use kruise.Prelude.Assoc.{Names, has, add, has-add}
use kruise.Stateful.Types.{Pod, StatefulSet, get_pod_revision}
use kruise.Stateful.History.{
  ControllerRevision, Truncation, ends, panics, slots, live_revisions, not_live, delete_revisions,
  truncate_history, live_of, or_none,
}

-- A name that a pod, or the current or the update revision has.
abbrev pub AllOf : (String → Type 0) → Names → Type 0
AllOf P [] = Unit
AllOf P (n ∷ ns) = P n × AllOf P ns

not_live-All :
    (live : Names) (rs : List ControllerRevision)
    → All (λ r. has r.name live ≡ false) (not_live live rs)
not_live-All live [] = tt
not_live-All live (r ∷ rs) = elim (Bool-cases (has r.name live)) [
  | inl on ↦ rw on (not_live-All live rs)
  | inr off ↦ rw off (off, not_live-All live rs)
]

-- What was deleted, also before a panic.
abbrev pub deleted_by : Truncation → Names
deleted_by (ends names refused) = names
deleted_by (panics names) = names

-- The deletions add names that satisfy what all of the revisions do.
delete_revisions-All :
    (accepts : Names → String → Bool) (live : Names) (n : ℕ) (rs : List ControllerRevision)
    (deleted : Names)
    → All (λ r. has r.name live ≡ false) rs
    → AllOf (λ n. has n live ≡ false) deleted
    → AllOf (λ n. has n live ≡ false) (deleted_by (delete_revisions accepts (slots n rs) deleted))
delete_revisions-All accepts live zero rs deleted h k = k
delete_revisions-All accepts live (suc n) [] deleted h k = k
delete_revisions-All accepts live (suc n) (r ∷ rs) deleted h k =
    elim (Bool-cases (accepts deleted r.name)) [
      | inl on ↦ rw on (delete_revisions-All accepts live n rs (r.name ∷ deleted) h.1 (h.0, k))
      | inr off ↦ rw off k
    ]

-- How the deletion of `n` revisions comes out, if `rs` are there.
data Deletes (n : ℕ) (rs : List ControllerRevision) (deleted : Names) : Truncation → Type 0 where
  stopped : (names : Names) → Deletes n rs deleted (ends names true)
  beyond : (names : Names) → length rs < n → Deletes n rs deleted (panics names)
  all_gone :
      (names : Names)
      → n ≤ length rs
      → length names ≡ n + length deleted
      → Deletes n rs deleted (ends names false)

delete_revisions-Deletes :
    (accepts : Names → String → Bool) (n : ℕ) (rs : List ControllerRevision) (deleted : Names)
    → Deletes n rs deleted (delete_revisions accepts (slots n rs) deleted)
delete_revisions-Deletes accepts zero rs deleted = all_gone deleted (omega arith) (omega arith)
delete_revisions-Deletes accepts (suc n) [] deleted = beyond deleted (omega arith)
delete_revisions-Deletes accepts (suc n) (r ∷ rs) deleted =
    elim (Bool-cases (accepts deleted r.name)) [
      | inl on ↦ rw on (one_more _ (delete_revisions-Deletes accepts n rs (r.name ∷ deleted)))
      | inr off ↦ rw off (stopped deleted)
    ]
  where
    one_more :
        (t : Truncation) → Deletes n rs (r.name ∷ deleted) t → Deletes (suc n) (r ∷ rs) deleted t
    one_more t (stopped names) = stopped names
    one_more t (beyond names h) = beyond names (omega (arith, h))
    one_more t (all_gone names h k) = all_gone names (omega (arith, h)) (omega (arith, k))

-- No pod has the revision, and it is neither the current nor the update revision.
abbrev pub IsUnused : List Pod → Option String → Option String → String → Type 0
IsUnused pods current update n =
    All (λ pod. str_eq (get_pod_revision pod) n ≡ false) pods
    × (current ≢ some n)
    × (update ≢ some n)

live_of-unused :
    (n : String) (pods : List Pod) (live : Names)
    → has n (live_of pods live) ≡ false
    → All (λ pod. str_eq (get_pod_revision pod) n ≡ false) pods × (has n live ≡ false)
live_of-unused n [] live h = (tt, h)
live_of-unused n (pod ∷ pods) live h =
    let (all, rest) = live_of-unused n pods (add (get_pod_revision pod) live) h in
    let known = has-add (get_pod_revision pod) n live in
    ((ground (arith, rest, known), all), ground (arith, rest, known))

or_none-unused :
    (n : String) (o : Option String) (live : Names)
    → has n (or_none o live) ≡ false
    → (o ≢ some n) × (has n live ≡ false)
or_none-unused n none live h = ((λ e. cc), h)
or_none-unused n (some m) live h =
    let known = has-add m n live in
    ((λ e. ground (arith, h, e, known, str_eq_iff m n)), ground (arith, h, known))

live-IsUnused :
    (pods : List Pod) (current update : Option String) (n : String)
    → has n (live_revisions pods current update) ≡ false
    → IsUnused pods current update n
unfolding live_revisions
live-IsUnused pods current update n h =
    let (of_pods, rest) = live_of-unused n pods _ h in
    let (of_update, rest') = or_none-unused n update (or_none current []) rest in
    (of_pods, (or_none-unused n current [] rest').0, of_update)

AllOf-map :
    (P Q : String → Type 0) (ns : Names) → ((n : String) → P n → Q n) → AllOf P ns → AllOf Q ns
AllOf-map P Q [] f h = tt
AllOf-map P Q (n ∷ ns) f h = (f n h.0, AllOf-map P Q ns f h.1)

-- How the truncation of a history comes out, with its limit.
pub data Ended (limit : ℤ) (history : List ControllerRevision) : Truncation → Type 0 where
  refused : (names : Names) → Ended limit history (ends names true)
  panicked : (names : Names) → limit <ℤ pos 0 → Ended limit history (panics names)
  done :
      (names : Names)
      → pos 0 ≤ℤ limit
      → length history - length names ≡ min (pos_part limit) (length history)
      → Ended limit history (ends names false)

pub record IsTruncated (pods : List Pod) (current update : Option String) (limit : ℤ)
    (revisions : List ControllerRevision) (t : Truncation) : Type 0 where
  pub spared : AllOf (IsUnused pods current update) (deleted_by t)
  pub ended : Ended limit (not_live (live_revisions pods current update) revisions) t

length-not_live :
    (live : Names) (rs : List ControllerRevision) → length (not_live live rs) ≤ length rs
length-not_live live [] = omega arith
length-not_live live (r ∷ rs) = ground (arith, length-not_live live rs)

-- The two parts of what the history has above the limit.
difference :
    (limit : ℤ) (history : List ControllerRevision)
    → (pos_part (pos (length history) -ℤ limit) + pos_part limit
        ≡ neg_part (pos (length history) -ℤ limit) + length history + neg_part limit)
      × ((pos_part (pos (length history) -ℤ limit) ≡ 0)
          ⊎ (neg_part (pos (length history) -ℤ limit) ≡ 0))
      × ((pos_part limit ≡ 0) ⊎ (neg_part limit ≡ 0))
difference limit history = (
  omega (arith, -ℤ_parts (pos (length history)) limit),
  parts_apart (pos (length history) -ℤ limit),
  parts_apart limit,
)

Deletes-Ended :
    (limit : ℤ) (history : List ControllerRevision) (t : Truncation)
    → leb_ℤ (pos (length history)) limit ≡ false
    → Deletes (pos_part (pos (length history) -ℤ limit)) history [] t
    → Ended limit history t
Deletes-Ended limit history t h (stopped names) = refused names
Deletes-Ended limit history t h (beyond names k) =
    panicked names (ground (arith, difference limit history, h, k))
Deletes-Ended limit history t h (all_gone names k e) =
    done names (ground (arith, difference limit history, h, k))
      (ground (arith, difference limit history, h, k, e))

-- Whatever the API server answers: no revision is deleted that a pod has or that is the current or
-- the update revision, also before a panic. If no deletion is refused: with a limit that is not
-- negative, as many of the others are left as it allows, or all if they are fewer; with a negative
-- one the truncation panics, and with no other.
pub truncate_history-IsTruncated :
    (accepts : Names → String → Bool) (set : StatefulSet) (pods : List Pod)
    (revisions : List ControllerRevision) (current update : Option String)
    → IsTruncated pods current update set.revision_history_limit revisions
        (truncate_history accepts set pods revisions current update)
unfolding truncate_history
truncate_history-IsTruncated accepts set pods revisions current update =
    elim (Bool-cases (leb_ℤ (pos (length history)) limit)) [
      | inl fits ↦ rw fits (record {
        spared = tt;
        ended =
            done [] (ground (arith, parts_apart limit, fits))
              (ground (arith, parts_apart limit, fits));
      })
      | inr exceeds ↦ elim (Bool-cases (leb n (length revisions))) [
        | inl room ↦
            rw (exceeds, room)
              (record {
                spared = AllOf-map _ _ _ (live-IsUnused pods current update) (
                    delete_revisions-All accepts live n history [] (not_live-All live revisions)
                      tt);
                ended =
                    Deletes-Ended limit history _ exceeds
                      (delete_revisions-Deletes accepts n history []);
              })
        | inr beyond_all ↦
            rw (exceeds, beyond_all)
              (record {
                spared = tt;
                ended = panicked [] (
                    ground (
                      arith,
                      difference limit history,
                      length-not_live live revisions,
                      exceeds,
                      beyond_all,
                    ));
              })
      ]
    ]
  where
    live : Names
    live = live_revisions pods current update

    history : List ControllerRevision
    history = not_live live revisions

    limit : ℤ
    limit = set.revision_history_limit

    n : ℕ
    n = pos_part (pos (length history) -ℤ limit)
