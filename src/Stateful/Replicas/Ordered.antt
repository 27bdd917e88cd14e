-- ===== src/Stateful/Replicas/Ordered.antt =====
-- The policy OrderedReady: the loop over the replicas goes from one to the next only if that one is
-- there and available.
use kruise.Prelude.{
  ℕ, ◌+◌, ◌≤◌, ◌≡◌, ◌⊎◌, inl, inr, refl, ap, Bool, true, false, ◌&&◌, not, Option, none, some, List,
  [], ◌∷◌, ◌++◌, arith, count, Bool-cases, if◌then◌else◌,
}
use kruise.Prelude.Int.{ℤ, pos}
use kruise.Stateful.Types.{Pod, Sent, is_running_and_available, is_created, is_failed}
use kruise.Stateful.Pass.{
  Pass, Run, monotonic, delete_pod, get_min_ready_seconds, push_after, is_current_revision_needed,
  new_versioned_stateful_set_pod,
}
use kruise.Stateful.Pass.Log.{
  is_creation, is_removal, delete_pod-Deletes, Deletes, refused, kept, gone, prepared,
}
use kruise.Stateful.Replicas.{
  Visited, returned, broken, visited, Looped, over, through, recreated, recreate_failed,
  create_replica, enforce, await_available, inspect, visit_replica, visit_replicas,
}

-- A replica that was created, is not terminating, and runs and is available.
abbrev pub serves : Pass → Pod → Bool
serves p pod =
    not pod.terminating
    && (is_running_and_available (pos p.world.now) (get_min_ready_seconds p.set) pod).0

abbrev pub run_of : Looped → Run
run_of (over error r) = r
run_of (through r) = r

-- No pod was created, deleted or moved.
abbrev pub IsQuiet : List Sent → List Sent → Type 0
IsQuiet log log' =
    (count is_creation log' ≡ count is_creation log)
    × (count is_removal log' ≡ count is_removal log)

-- One pod at most was created, and one at most deleted or moved.
abbrev pub IsOneStep : List Sent → List Sent → Type 0
IsOneStep log log' =
    (count is_creation log' ≤ count is_creation log + 1)
    × (count is_removal log' ≤ count is_removal log + 1)

abbrev VisitsInOrder : Pass → Pod → List Sent → Visited → Type 0
VisitsInOrder p pod log (returned error r) = IsOneStep log r.log
VisitsInOrder p pod log (broken r) = ⊥
VisitsInOrder p pod log (visited r) = (serves p pod ≡ true) × IsQuiet log r.log

-- The pass is over, and at most a creation was added.
abbrev IsCreated : List Sent → Visited → Type 0
IsCreated log (returned error r) =
    (count is_creation r.log ≤ count is_creation log + 1)
    × (count is_removal r.log ≡ count is_removal log)
IsCreated log (broken r) = ⊥
IsCreated log (visited r) = ⊥

-- The pod as it was, or a new one for which one at most was deleted or moved.
abbrev IsRecreated : Pod → Run → Option (Pod × Run) → Type 0
IsRecreated pod r none = Unit
IsRecreated pod r (some (pod', r')) =
    ((pod' ≡ pod) × (r' ≡ r))
    ⊎ ((is_created pod' ≡ false)
        × (count is_creation r'.log ≡ count is_creation r.log)
        × (count is_removal r'.log ≤ count is_removal r.log + 1))

new_versioned_stateful_set_pod-is_created :
    (p : Pass) (i : ℕ) (replicas : List (Option Pod))
    → is_created (new_versioned_stateful_set_pod p i replicas) ≡ false
unfolding is_created new_versioned_stateful_set_pod
new_versioned_stateful_set_pod-is_created p i replicas =
    elim (Bool-cases (is_current_revision_needed p i replicas)) [
      | inl on ↦ rw on refl
      | inr off ↦ rw off refl
    ]

module _ (p : Pass) (ordered : monotonic p ≡ true) where
  enforce-InOrder :
      (pod : Pod) (r : Run) → serves p pod ≡ true → VisitsInOrder p pod r.log (enforce p pod r)
  unfolding enforce
  enforce-InOrder pod r h = ground (arith, ordered)

  await_available-InOrder :
      (pod : Pod) (r : Run)
      → pod.terminating ≡ false
      → VisitsInOrder p pod r.log (await_available p pod r)
  unfolding await_available
  await_available-InOrder pod r h =
      elim (Bool-cases
        (is_running_and_available (pos p.world.now) (get_min_ready_seconds p.set) pod).0) [
          | inl on ↦ rw on (enforce-InOrder pod r (simp (on, h)))
          | inr off ↦ rw (off, ordered) (ground arith)
        ]

  inspect-InOrder : (pod : Pod) (r : Run) → VisitsInOrder p pod r.log (inspect p pod r)
  unfolding inspect
  inspect-InOrder pod r = elim (Bool-cases pod.terminating) [
    | inl on ↦ rw (on, ordered) (omega arith)
    | inr off ↦ refreshed off (p.world.refresh r.log pod) refl
  ]
    where
      refreshed :
          pod.terminating ≡ false
          → (o : Option ℤ) → p.world.refresh r.log pod ≡ o
          → VisitsInOrder p pod r.log (inspect p pod r)
      refreshed off none e = simp (e, off) (omega arith)
      refreshed off (some delay) e =
          simp (e, off, ordered) (await_available-InOrder pod (push_after p.key delay r) off)

  create-InOrder : (i : ℕ) (pod : Pod) (r : Run) → IsCreated r.log (create_replica p i pod r)
  unfolding create_replica
  create-InOrder i pod r = ground (arith, ordered)

  recreate-InOrder : (i : ℕ) (pod : Pod) (r : Run) → IsRecreated pod r (recreate_failed p i pod r)
  unfolding recreate_failed
  recreate-InOrder i pod r = elim (Bool-cases (is_failed pod)) [
    | inl on ↦ rw on (deleted (delete_pod p pod r.log) (delete_pod-Deletes p pod r.log))
    | inr off ↦ rw off (inl (refl, refl))
  ]
    where
      fresh : is_created (new_versioned_stateful_set_pod p i r.replicas) ≡ false
      fresh = new_versioned_stateful_set_pod-is_created p i r.replicas

      deleted :
          (o : Option (Bool × List Sent))
          → Deletes pod r.log o
          → IsRecreated pod r (recreated p i pod r o)
      deleted o refused = tt
      deleted o kept = inr (fresh, omega arith, omega arith)
      deleted o gone = inr (fresh, omega arith, omega arith)
      deleted o prepared = inr (fresh, omega arith, omega arith)

  visit-InOrder :
      (i : ℕ) (pod : Pod) (r : Run) → VisitsInOrder p pod r.log (visit_replica p i pod r)
  unfolding visit_replica
  visit-InOrder i pod r = from (recreate_failed p i pod r) (recreate-InOrder i pod r) refl
    where
      made :
          (log : List Sent) (r' : Run) (v : Visited)
          → count is_creation r'.log ≡ count is_creation log
          → count is_removal r'.log ≤ count is_removal log + 1
          → IsCreated r'.log v
          → VisitsInOrder p pod log v
      made log r' (returned error r'') same more h = omega (arith, same, more, h)
      made log r' (broken r'') same more h = h
      made log r' (visited r'') same more h = absurd h

      old :
          (is_created pod ≡ true) ⊎ (is_created pod ≡ false)
          → VisitsInOrder p pod r.log
              (if not (is_created pod) then create_replica p i pod r else inspect p pod r)
      old (inl on) = rw on (inspect-InOrder pod r)
      old (inr off) = rw off (made r.log r _ refl (omega arith) (create-InOrder i pod r))

      from :
          (o : Option (Pod × Run))
          → IsRecreated pod r o
          → recreate_failed p i pod r ≡ o
          → VisitsInOrder p pod r.log (visit_replica p i pod r)
      from none h e = rw (e, visit_replica) (omega arith)
      from (some (pod', r')) (inr (new, same, more)) e =
          rw (e, visit_replica, new)
            (made r.log r' (create_replica p i pod' r') same more (create-InOrder i pod' r'))
      from (some (pod', r')) (inl (same, same')) e =
          rw (e, visit_replica, same, same') (old (Bool-cases (is_created pod)))

-- The replicas serve, where there are any.
abbrev pub AllServe : Pass → List (Option Pod) → Type 0
AllServe p [] = Unit
AllServe p (none ∷ rs) = AllServe p rs
AllServe p (some pod ∷ rs) = (serves p pod ≡ true) × AllServe p rs

-- All replicas serve and nothing was sent that scales, or the pass is over at the first that does not
-- or may not.
pub data InOrder (p : Pass) (replicas : List (Option Pod)) (log : List Sent) : Looped → Type 0 where
  all_serve :
      (r : Run) → AllServe p replicas → IsQuiet log r.log → InOrder p replicas log (through r)
  stops :
      (error : Bool) (r : Run) (before : List (Option Pod)) (pod : Pod) (after : List (Option Pod))
      → replicas ≡ before ++ some pod ∷ after
      → AllServe p before
      → IsOneStep log r.log
      → InOrder p replicas log (over error r)

-- With the policy OrderedReady, whatever the API server and the other parts answer: the loop over the
-- replicas comes through only if all of them serve, that is, run and are available and do not
-- terminate, and has then created, deleted or moved no pod. Otherwise the pass is over at a replica
-- before which all serve, with at most one pod created and at most one deleted or moved.
pub visit_replicas-InOrder :
    (p : Pass)
    → monotonic p ≡ true
    → (i : ℕ) (replicas : List (Option Pod)) (r : Run)
    → InOrder p replicas r.log (visit_replicas p i replicas r)
unfolding visit_replicas
visit_replicas-InOrder p ordered i [] r = all_serve r tt (refl, refl)
visit_replicas-InOrder p ordered i (none ∷ rest) r =
    later (visit_replicas-InOrder p ordered (i + 1) rest r)
  where
    later : {l : Looped} → InOrder p rest r.log l → InOrder p (none ∷ rest) r.log l
    later (all_serve r' h q) = all_serve r' h q
    later (stops error r' before pod after same h q) =
        stops error r' (none ∷ before) pod after (ap (◌∷◌ none) same) h q
visit_replicas-InOrder p ordered i (some pod ∷ rest) r =
    at (visit_replicas-InOrder p ordered (i + 1) rest) (visit_replica p i pod r)
      (visit-InOrder p ordered i pod r) refl
  where
    later :
        {log : List Sent} {l : Looped}
        → serves p pod ≡ true
        → IsQuiet r.log log
        → InOrder p rest log l
        → InOrder p (some pod ∷ rest) r.log l
    later on q (all_serve r' h q') = all_serve r' (on, h) (omega (arith, q, q'))
    later on q (stops error r' before pod' after same h q') =
        stops error r' (some pod ∷ before) pod' after (ap (◌∷◌ (some pod)) same) (on, h)
          (omega (arith, q, q'))

    at :
        ((r' : Run) → InOrder p rest r'.log (visit_replicas p (i + 1) rest r'))
        → (v : Visited) → VisitsInOrder p pod r.log v
        → visit_replica p i pod r ≡ v
        → InOrder p (some pod ∷ rest) r.log (visit_replicas p i (some pod ∷ rest) r)
    at ih (returned error r') h e = rw (e, visit_replicas) (stops error r' [] pod rest refl tt h)
    at ih (broken r') h e = absurd h
    at ih (visited r') h e = rw (e, visit_replicas) (later h.0 h.1 (ih r'))
