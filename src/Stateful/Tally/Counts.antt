-- ===== src/Stateful/Tally/Counts.antt =====
-- The counters of the status.
use kruise.Prelude.{ℕ, suc, ◌≡◌, String, List, [], ◌∷◌, arith, length}
use kruise.Prelude.Int.{ℤ, pos, ◌+ℤ◌, ◌≤ℤ◌, int_laws}
use kruise.Stateful.Types.{Pod, Status}
use kruise.Stateful.Pass.{Pass}
use kruise.Stateful.Tally.{Tally, count_pod, place_pod, tally_pods, tally, fresh_status}

-- The counters fit together, for `n` pods.
pub record IsCounted (n : ℤ) (s : Status) : Type 0 where
  pub all : s.replicas ≡ n
  pub ready : s.ready_replicas ≤ℤ s.replicas
  pub available : s.available_replicas ≤ℤ s.ready_replicas
  pub updated_ready : s.updated_ready_replicas ≤ℤ s.ready_replicas
  pub updated_available : s.updated_available_replicas ≤ℤ s.updated_ready_replicas
  pub updated_available' : s.updated_available_replicas ≤ℤ s.available_replicas
  pub none_negative : pos 0 ≤ℤ s.updated_available_replicas
  pub current : s.current_replicas ≤ℤ s.replicas
  pub updated : s.updated_replicas ≤ℤ s.replicas

count_pod-IsCounted :
    (p : Pass) (pod : Pod) (n : ℤ) (s : Status)
    → IsCounted n s
    → IsCounted (n +ℤ pos 1) (count_pod p pod s)
unfolding count_pod
count_pod-IsCounted p pod n s h = grind int_laws

place_pod-status :
    (p : Pass) (replica_count : ℕ) (pod : Pod) (t : Tally)
    → (place_pod p replica_count pod t).status ≡ t.status
unfolding place_pod
place_pod-status p replica_count pod t = ground arith

add-suc : (n : ℤ) (k : ℕ) → (n +ℤ pos 1) +ℤ pos k ≡ n +ℤ pos (suc k)
add-suc n k = grind int_laws

counted :
    (p : Pass) (replica_count : ℕ) (pods : List Pod) (n : ℤ) (t : Tally)
    → IsCounted n t.status
    → IsCounted (n +ℤ pos (length pods)) (tally_pods p replica_count pods t).status
unfolding tally_pods
counted p replica_count [] n t h = let same : n +ℤ pos 0 ≡ n = grind int_laws in rw same h
counted p replica_count (pod ∷ pods) n t h = rw (← add-suc n (length pods)) (
    counted p replica_count pods (n +ℤ pos 1) _ (
      rw (place_pod-status p replica_count pod (record t { status = count_pod p pod t.status }))
        (count_pod-IsCounted p pod n t.status h)))

fresh_status-IsCounted :
    (p : Pass) (selector : String) (n : ℤ) → IsCounted (pos 0) (fresh_status p selector n)
fresh_status-IsCounted p selector n = ground arith

-- Whatever the pods: the status counts each of them once as a replica; the ready ones are among
-- these, the available and the updated ones among the ready ones, and those that are both among both;
-- and no more are counted as current or as updated than there are replicas.
pub tally-IsCounted :
    (p : Pass) (replica_count : ℕ) (pods : List Pod) (selector : String) (collision_count : ℤ)
    → IsCounted
        (pos (length pods))
        (tally p replica_count pods (fresh_status p selector collision_count)).status
unfolding tally
tally-IsCounted p replica_count pods selector collision_count =
    let same : pos 0 +ℤ pos (length pods) ≡ pos (length pods) = grind int_laws in
    rw (← same)
      (counted p replica_count pods (pos 0) _ (fresh_status-IsCounted p selector collision_count))
