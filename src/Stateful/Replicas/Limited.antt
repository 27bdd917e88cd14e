-- ===== src/Stateful/Replicas/Limited.antt =====
-- `scaleMaxUnavailable`: how many pods the loop over the replicas creates in one pass.
use kruise.Prelude.{
  ℕ, ◌+◌, ◌≤◌, ◌<◌, ◌≡◌, ◌⊎◌, inl, inr, refl, ap, Bool, true, false, Option, none, some, List, [],
  ◌∷◌, arith, count, Bool-cases, if◌then◌else◌,
}
use kruise.Prelude.Int.{ℤ, pos, negsuc, pos_part, ◌-ℤ◌}
use kruise.Stateful.Types.{Pod, Sent, is_created, is_failed}
use kruise.Stateful.Pass.{
  Pass, Run, delete_pod, decrease_and_check_max_unavailable, monotonic, push_after,
}
use kruise.Stateful.Pass.Log.{
  is_creation, delete_pod-Deletes, Deletes, refused, kept, gone, prepared,
}
use kruise.Stateful.Replicas.{
  Visited, returned, broken, visited, recreated, recreate_failed, create_replica, enforce,
  await_available, inspect, visit_replica, visit_replicas,
}
use kruise.Stateful.Replicas.Ordered.{run_of}

-- At least one pod may still be created.
abbrev pub HasRoom : Option ℤ → Type 0
HasRoom none = ⊥
HasRoom (some n) = 0 < pos_part n

abbrev pub room : Option ℤ → ℕ
room none = 0
room (some n) = pos_part n

abbrev pub creations : Run → ℕ
creations r = count is_creation r.log

-- What is left to create, with what was created, does not grow; there is room left where the loop goes
-- on.
abbrev IsPaid : Run → Visited → Type 0
IsPaid r (returned error r') = creations r' ≤ creations r + room r.budget
IsPaid r (broken r') = creations r' ≤ creations r + room r.budget
IsPaid r (visited r') =
    HasRoom r'.budget × (creations r' + room r'.budget ≤ creations r + room r.budget)

-- One step of the counter.
decrease-room :
    (b : Option ℤ)
    → HasRoom b
    → ((decrease_and_check_max_unavailable b).1 ≡ true)
      ⊎ (HasRoom (decrease_and_check_max_unavailable b).0
          × (room (decrease_and_check_max_unavailable b).0 + 1 ≤ room b))
unfolding decrease_and_check_max_unavailable ◌-ℤ◌
decrease-room none h = absurd h
decrease-room (some (pos n)) h = ground arith
decrease-room (some (negsuc n)) h = absurd (omega (arith, h))

IsPaid-le :
    (r : Run) (left : Option ℤ)
    → room left ≤ room r.budget
    → (v : Visited) → IsPaid (record r { budget = left }) v
    → IsPaid r v
IsPaid-le r left le (returned error r') h = omega (arith, le, h)
IsPaid-le r left le (broken r') h = omega (arith, le, h)
IsPaid-le r left le (visited r') h = (h.0, omega (arith, le, h.1))

module _ (p : Pass) where
  enforce-IsPaid : (pod : Pod) (r : Run) → HasRoom r.budget → IsPaid r (enforce p pod r)
  unfolding enforce
  enforce-IsPaid pod r h = ground arith

  await_available-IsPaid :
      (pod : Pod) (r : Run) → HasRoom r.budget → IsPaid r (await_available p pod r)
  unfolding await_available enforce
  await_available-IsPaid pod r h = ground (arith, decrease-room r.budget h)

  -- On a run with no more to spend.
  go_on-IsPaid :
      (pod : Pod) (r : Run) (left : Option ℤ) (delay : ℤ)
      → HasRoom left
      → room left ≤ room r.budget
      → (b : Bool)
      → IsPaid r (
          if b
          then await_available p pod (push_after p.key delay (record r { budget = left }))
          else enforce p pod (push_after p.key delay (record r { budget = left })))
  go_on-IsPaid pod r left delay h le true =
      IsPaid-le r left le _
        (await_available-IsPaid pod (push_after p.key delay (record r { budget = left })) h)
  go_on-IsPaid pod r left delay h le false =
      IsPaid-le r left le _
        (enforce-IsPaid pod (push_after p.key delay (record r { budget = left })) h)

  inspect-IsPaid : (pod : Pod) (r : Run) → HasRoom r.budget → IsPaid r (inspect p pod r)
  unfolding inspect
  inspect-IsPaid pod r h =
      at (Bool-cases pod.terminating) (Bool-cases (monotonic p)) (decrease-room r.budget h)
        (p.world.refresh r.log pod) refl
    where
      at :
          (pod.terminating ≡ true) ⊎ (pod.terminating ≡ false)
          → (monotonic p ≡ true) ⊎ (monotonic p ≡ false)
          → ((decrease_and_check_max_unavailable r.budget).1 ≡ true)
            ⊎ (HasRoom (decrease_and_check_max_unavailable r.budget).0
                × (room (decrease_and_check_max_unavailable r.budget).0 + 1 ≤ room r.budget))
          → (o : Option ℤ) → p.world.refresh r.log pod ≡ o
          → IsPaid r (inspect p pod r)
      at (inl on) (inl m) c o e = simp (on, m) (omega arith)
      at (inl on) (inr m) (inl all) o e = simp (on, m, all) (omega arith)
      at (inl on) (inr m) (inr some') none e =
          elim (Bool-cases (decrease_and_check_max_unavailable r.budget).1) [
            | inl all ↦ simp (on, m, all) (omega arith)
            | inr left ↦ simp (on, m, left, e) (omega arith)
          ]
      at (inl on) (inr m) (inr some') (some delay) e =
          elim (Bool-cases (decrease_and_check_max_unavailable r.budget).1) [
            | inl all ↦ simp (on, m, all) (omega arith)
            | inr left ↦
                simp (on, m, left, e)
                  (go_on-IsPaid pod r (decrease_and_check_max_unavailable r.budget).0 delay some'.0
                    (omega (arith, some'.1)) _)
          ]
      at (inr off) b c none e = simp (off, e) (omega arith)
      at (inr off) b c (some delay) e =
          simp (off, e) (go_on-IsPaid pod r r.budget delay h (omega arith) _)

  create-IsPaid :
      (i : ℕ) (pod : Pod) (r : Run) → HasRoom r.budget → IsPaid r (create_replica p i pod r)
  unfolding create_replica
  create-IsPaid i pod r h = ground (arith, decrease-room r.budget h)

  recreate-IsSame :
      (i : ℕ) (pod : Pod) (r : Run) (pod' : Pod) (r' : Run)
      → recreate_failed p i pod r ≡ some (pod', r')
      → (creations r' ≡ creations r) × (r'.budget ≡ r.budget)
  unfolding recreate_failed
  recreate-IsSame i pod r pod' r' h = elim (Bool-cases (is_failed pod)) [
    | inl on ↦ deleted (delete_pod p pod r.log) (delete_pod-Deletes p pod r.log) (rw on at h)
    | inr off ↦ ground (arith, off)
  ]
    where
      deleted :
          (o : Option (Bool × List Sent))
          → Deletes pod r.log o
          → recreated p i pod r o ≡ some (pod', r')
          → (creations r' ≡ creations r) × (r'.budget ≡ r.budget)
      deleted o refused e = cc
      deleted o kept e = ground arith
      deleted o gone e = ground arith
      deleted o prepared e = ground arith

  visit-IsPaid :
      (i : ℕ) (pod : Pod) (r : Run) → HasRoom r.budget → IsPaid r (visit_replica p i pod r)
  unfolding visit_replica
  visit-IsPaid i pod r h = from (recreate_failed p i pod r) refl
    where
      moved :
          (r' : Run)
          → creations r' ≡ creations r
          → r'.budget ≡ r.budget
          → (v : Visited) → IsPaid r' v
          → IsPaid r v
      moved r' same same' (returned error r'') k = omega (arith, same, ap room same', k)
      moved r' same same' (broken r'') k = omega (arith, same, ap room same', k)
      moved r' same same' (visited r'') k = (k.0, omega (arith, same, ap room same', k.1))

      from :
          (o : Option (Pod × Run))
          → recreate_failed p i pod r ≡ o
          → IsPaid r (visit_replica p i pod r)
      from none e = rw (e, visit_replica) (omega arith)
      from (some (pod', r')) e =
          let same = recreate-IsSame i pod r pod' r' e in
          let h' : HasRoom r'.budget = rw same.1 h in
          elim (Bool-cases (is_created pod')) [
            | inl on ↦
                rw (e, visit_replica, on) (moved r' same.0 same.1 _ (inspect-IsPaid pod' r' h'))
            | inr off ↦
                rw (e, visit_replica, off) (moved r' same.0 same.1 _ (create-IsPaid i pod' r' h'))
          ]

-- With a maximum of unavailable pods for scaling, and with either policy: the loop over the replicas
-- creates at most as many pods as the maximum, whatever is answered.
pub visit_replicas-creations :
    (p : Pass) (i : ℕ) (replicas : List (Option Pod)) (r : Run)
    → HasRoom r.budget
    → creations (run_of (visit_replicas p i replicas r)) ≤ creations r + room r.budget
unfolding visit_replicas
visit_replicas-creations p i [] r h = omega arith
visit_replicas-creations p i (none ∷ rest) r h = visit_replicas-creations p (i + 1) rest r h
visit_replicas-creations p i (some pod ∷ rest) r h =
    at (visit_replicas-creations p (i + 1) rest) (visit_replica p i pod r) refl
      (visit-IsPaid p i pod r h)
  where
    at :
        ((r' : Run)
          → HasRoom r'.budget
          → creations (run_of (visit_replicas p (i + 1) rest r')) ≤ creations r' + room r'.budget)
        → (v : Visited) → visit_replica p i pod r ≡ v
        → IsPaid r v
        → creations (run_of (visit_replicas p i (some pod ∷ rest) r)) ≤ creations r + room r.budget
    at ih (returned error r') e k = rw (e, visit_replicas) k
    at ih (broken r') e k = rw (e, visit_replicas) k
    at ih (visited r') e k = rw (e, visit_replicas) (omega (arith, ih r' k.0, k.1))
