-- ===== src/Stateful/Tally.antt =====
-- The first part of `updateStatefulSet` of pkg/controller/statefulset/stateful_set_control.go: the
-- pods are counted and told apart, and the empty places are filled.
pub mod Counts
use kruise.Prelude.{
  ℕ, zero, suc, ◌+◌, String, str_eq, Bool, true, false, ◌&&◌, ◌||◌, not, Option, none, some, List,
  [], ◌∷◌, ◌++◌, if◌then◌else◌,
}
use kruise.Prelude.Int.{ℤ, pos, pos_part, negsuc, ◌+ℤ◌, ltb_ℤ, leb_ℤ, eqb_ℤ}
use kruise.Stateful.Ordinals.{has_ordinal}
use kruise.Stateful.Types.{
  Pod, Status, ordinal, get_pod_revision, is_running_and_ready, is_running_and_available,
  is_created, is_healthy,
}
use kruise.Stateful.Pass.{
  Pass, put, counts_up, get_min_ready_seconds, new_versioned_stateful_set_pod,
}

-- The replicas by ordinal, and the pods that are to go.
pub record Tally : Type 0 where
  pub status : Status
  pub replicas : List (Option Pod)
  pub condemned : List Pod

abbrev one_if : Bool → ℤ
one_if b = if b then pos 1 else pos 0

-- What one pod adds to the status.
unfoldable pub count_pod : Pass → Pod → Status → Status
unfolding is_running_and_ready is_created get_min_ready_seconds
count_pod p pod s =
    let ready = is_running_and_ready pod in
    let is_new = str_eq (get_pod_revision pod) p.update_revision in
    let available =
      (is_running_and_available (pos p.world.now) (get_min_ready_seconds p.set) pod).0 in
    let counted = record s {
      replicas = s.replicas +ℤ pos 1;
      ready_replicas = s.ready_replicas +ℤ one_if ready;
      updated_ready_replicas = s.updated_ready_replicas +ℤ one_if (ready && is_new);
      updated_available_replicas =
          s.updated_available_replicas +ℤ one_if (ready && (is_new && available));
      available_replicas = s.available_replicas +ℤ one_if (ready && available);
    } in
    if is_created pod && not pod.terminating then counts_up p pod counted else counted

abbrev is_reserved : List ℤ → ℤ → Bool
is_reserved [] n = false
is_reserved (r ∷ rs) n = eqb_ℤ r n || is_reserved rs n

-- Where a pod belongs. One whose name has no ordinal is left out.
unfoldable pub place_pod : Pass → ℕ → Pod → Tally → Tally
place_pod p replica_count pod t =
    let ord = ordinal pod in
    let reserved = is_reserved p.set.reserve_ordinals ord in
    if leb_ℤ (pos 0) ord && (ltb_ℤ ord (pos replica_count) && not reserved)
    then record t { replicas = put t.replicas (pos_part ord) pod }
    else if leb_ℤ (pos replica_count) ord || reserved
    then record t { condemned = t.condemned ++ pod ∷ [] }
    else t

unfoldable pub tally_pods : Pass → ℕ → List Pod → Tally → Tally
unfolding count_pod place_pod
tally_pods p replica_count [] t = t
tally_pods p replica_count (pod ∷ pods) t =
    tally_pods p replica_count pods
      (place_pod p replica_count pod (record t { status = count_pod p pod t.status }))

abbrev pub no_pods : ℕ → List (Option Pod)
no_pods zero = []
no_pods (suc n) = none ∷ no_pods n

-- The empty places get new pods, which see those that are already filled.
unfoldable pub fill : Pass → ℕ → List (Option Pod) → List (Option Pod) → List (Option Pod)
unfolding new_versioned_stateful_set_pod
fill p i [] replicas = replicas
fill p i (some pod ∷ rest) replicas = fill p (i + 1) rest replicas
fill p i (none ∷ rest) replicas = fill p (i + 1) rest (
    if has_ordinal p.set.reserve_ordinals i
    then replicas
    else put replicas i (new_versioned_stateful_set_pod p i replicas))

-- The place of the first condemned pod that is not healthy, from `i` on, if its ordinal is below
-- `lowest` and those of all others that are not.
unfoldable pub first_unhealthy : ℕ → List Pod → ℤ → Option ℕ → Option ℕ
unfolding is_healthy
first_unhealthy i [] lowest found = found
first_unhealthy i (pod ∷ pods) lowest found =
    let lower = not (is_healthy pod) && ltb_ℤ (ordinal pod) lowest in
    first_unhealthy (i + 1) pods (if lower then ordinal pod else lowest)
      (if lower then some i else found)

unfoldable pub lowest_unhealthy : List (Option Pod) → ℤ → ℤ
unfolding is_healthy
lowest_unhealthy [] lowest = lowest
lowest_unhealthy (none ∷ rs) lowest = lowest_unhealthy rs lowest
lowest_unhealthy (some pod ∷ rs) lowest =
    lowest_unhealthy rs
      (if not (is_healthy pod) && ltb_ℤ (ordinal pod) lowest then ordinal pod else lowest)

abbrev pub fresh_status : Pass → String → ℤ → Status
fresh_status p selector collision_count = record {
  observed_generation = p.set.generation;
  current_revision = p.current_revision;
  update_revision = p.update_revision;
  label_selector = selector;
  collision_count = collision_count;
  replicas = pos 0;
  ready_replicas = pos 0;
  available_replicas = pos 0;
  current_replicas = pos 0;
  updated_replicas = pos 0;
  updated_ready_replicas = pos 0;
  updated_available_replicas = pos 0;
  failed = none;
}

-- The replicas, new ones included, and the condemned pods by ordinal.
unfoldable pub tally : Pass → ℕ → List Pod → Status → Tally
unfolding tally_pods fill
tally p replica_count pods status =
    let t =
      tally_pods p replica_count pods
        (record { status = status; replicas = no_pods replica_count; condemned = [] }) in
    record t {
      replicas = fill p 0 t.replicas t.replicas;
      condemned = p.world.sort_ascending_ordinal t.condemned;
    }
