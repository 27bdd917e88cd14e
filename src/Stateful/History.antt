-- ===== src/Stateful/History.antt =====
-- The revisions of a StatefulSet: `getStatefulSetRevisions` and `truncateHistory` of
-- pkg/controller/statefulset/stateful_set_control.go.
pub mod Truncated
use kruise.Prelude.{
  ℕ, zero, suc, ◌+◌, ◌-◌, String, str_eq, Bool, true, false, Option, none, some, List, [], ◌∷◌,
  if◌then◌else◌, length, take, leb,
}
use kruise.Prelude.Int.{ℤ, pos, pos_part, ◌+ℤ◌, ◌-ℤ◌, leb_ℤ}
use kruise.Prelude.Assoc.{Names, has, add}
use kruise.Stateful.Types.{Pod, StatefulSet, get_pod_revision}

-- A revision of the history: its name, and its number.
pub record ControllerRevision : Type 0 where
  pub name : String
  pub revision : ℤ

abbrev pub live_of : List Pod → Names → Names
live_of [] live = live
live_of (pod ∷ pods) live = live_of pods (add (get_pod_revision pod) live)

abbrev pub or_none : Option String → Names → Names
or_none none live = live
or_none (some n) live = add n live

-- The names of the revisions that are in use.
unfoldable pub live_revisions : List Pod → Option String → Option String → Names
live_revisions pods current update = live_of pods (or_none update (or_none current []))

abbrev pub not_live : Names → List ControllerRevision → List ControllerRevision
not_live live [] = []
not_live live (r ∷ rs) = let rest = not_live live rs in if has r.name live then rest else r ∷ rest

-- How the truncation comes out: the names that were deleted, the last first, and whether a deletion
-- was refused; or a panic after those deletions.
pub data Truncation : Type 0 where
  ends : Names → Bool → Truncation
  panics : Names → Truncation

-- `s[:n]`, for a slice of pointers: beyond the length of the slice they are nil, which is `none`.
abbrev pub slots : ℕ → List ControllerRevision → List (Option ControllerRevision)
slots zero rs = []
slots (suc n) [] = none ∷ slots n []
slots (suc n) (r ∷ rs) = some r ∷ slots n rs

-- The loop over the revisions. `DeleteControllerRevision` reads the namespace of its argument, so that
-- a nil one is a panic.
abbrev pub delete_revisions :
    (Names → String → Bool) → List (Option ControllerRevision) → Names → Truncation
delete_revisions accepts [] deleted = ends deleted false
delete_revisions accepts (none ∷ rs) deleted = panics deleted
delete_revisions accepts (some r ∷ rs) deleted =
    let rest = delete_revisions accepts rs (r.name ∷ deleted) in
    if accepts deleted r.name then rest else ends deleted true

-- `truncateHistory`, on sorted revisions. The history has room for all of them, and a slice beyond
-- that is a panic.
unfoldable pub truncate_history :
    (Names → String → Bool)
    → StatefulSet
    → List Pod
    → List ControllerRevision
    → Option String
    → Option String
    → Truncation
unfolding live_revisions
truncate_history accepts set pods revisions current update =
    let history = not_live (live_revisions pods current update) revisions in
    let n = pos_part (pos (length history) -ℤ set.revision_history_limit) in
    if leb_ℤ (pos (length history)) set.revision_history_limit
    then ends [] false
    else if leb n (length revisions)
    then delete_revisions accepts (slots n history) []
    else panics []

-- What the history of package k8s.io/kubernetes/pkg/controller/history answers: a revision of the
-- template with a number, if the template can be read; whether two revisions hold the same data; and
-- the writes, with the count of collisions. `none` is an error.
pub record History : Type 0 where
  pub new_revision : ℤ → Option ControllerRevision
  pub equal_revision : ControllerRevision → ControllerRevision → Bool
  pub update_controller_revision : ControllerRevision → ℤ → Option ControllerRevision
  pub create_controller_revision : ControllerRevision → ℤ → Option (ControllerRevision × ℤ)

abbrev pub last : List ControllerRevision → Option ControllerRevision
last [] = none
last (r ∷ rs) = elim (last rs) [ none ↦ some r | some n ↦ some n ]

unfoldable pub next_revision : List ControllerRevision → ℤ
next_revision revisions = elim (last revisions) [ none ↦ pos 1 | some r ↦ r.revision +ℤ pos 1 ]

-- `history.FindEqualRevisions`.
abbrev pub equal_revisions :
    History → ControllerRevision → List ControllerRevision → List ControllerRevision
equal_revisions h r [] = []
equal_revisions h r (n ∷ ns) =
    let rest = equal_revisions h r ns in if h.equal_revision n r then n ∷ rest else rest

abbrev pub find_revision : String → List ControllerRevision → Option ControllerRevision
find_revision name [] = none
find_revision name (r ∷ rs) = if str_eq r.name name then some r else find_revision name rs

-- The current and the update revision, with the count of collisions.
pub record Revisions : Type 0 where
  pub current : ControllerRevision
  pub update : ControllerRevision
  pub collision_count : ℤ

abbrev with_current : StatefulSet → List ControllerRevision → ControllerRevision → ℤ → Revisions
with_current set revisions update n = record {
  current = elim (find_revision set.status.current_revision revisions) [
    | none ↦ update
    | some r ↦ r
  ];
  update = update;
  collision_count = n;
}

abbrev rolled_back :
    StatefulSet → List ControllerRevision → Option ControllerRevision → Option Revisions
rolled_back set revisions none = none
rolled_back set revisions (some r) = some (with_current set revisions r set.status.collision_count)

abbrev newly_created :
    StatefulSet → List ControllerRevision → Option (ControllerRevision × ℤ) → Option Revisions
newly_created set revisions none = none
newly_created set revisions (some (r, n)) = some (with_current set revisions r n)

-- The last revision of the history, and the last one that is equal to the new one, if any.
abbrev choose :
    History
    → StatefulSet
    → List ControllerRevision
    → ControllerRevision
    → Option ControllerRevision
    → Option ControllerRevision
    → Option Revisions
choose h set revisions fresh none newest =
    newly_created set revisions (h.create_controller_revision fresh set.status.collision_count)
choose h set revisions fresh (some equal) none =
    newly_created set revisions (h.create_controller_revision fresh set.status.collision_count)
choose h set revisions fresh (some equal) (some newest) =
    if h.equal_revision newest equal
    then some (with_current set revisions newest set.status.collision_count)
    else rolled_back set revisions (h.update_controller_revision equal fresh.revision)

-- `getStatefulSetRevisions`, on sorted revisions; `none` is an error.
unfoldable pub get_stateful_set_revisions :
    History → StatefulSet → List ControllerRevision → Option Revisions
unfolding next_revision
get_stateful_set_revisions h set revisions = elim (h.new_revision (next_revision revisions)) [
  | none ↦ none
  | some fresh ↦
      choose h set revisions fresh (last (equal_revisions h fresh revisions)) (last revisions)
]
