-- ===== src/Stateful/Replicas.antt =====
-- The loop of `updateStatefulSet` over the replicas, in pkg/controller/statefulset/
-- stateful_set_control.go: failed pods are recreated, missing ones created, the others awaited.
pub mod Ordered
pub mod Limited
use kruise.Prelude.{
  ℕ, zero, suc, ◌+◌, String, str_eq, Bool, true, false, ◌&&◌, ◌||◌, not, Option, none, some, List,
  [], ◌∷◌, if◌then◌else◌, is_some,
}
use kruise.Prelude.Int.{ℤ, pos, ◌+ℤ◌, ◌-ℤ◌}
use kruise.Util.LifecycleState
use kruise.Util.Pods.{set_pod_lifecycle}
use kruise.Stateful.Names.{identity_matches}
use kruise.Stateful.Types.{
  Pod, Sent, creates, updates, is_running_and_available, is_created, is_failed,
}
use kruise.Stateful.Pass.{
  Pass, Run, monotonic, put, counts_up, counts_down, push_after, delete_pod, get_min_ready_seconds,
  new_versioned_stateful_set_pod, decrease_and_check_max_unavailable,
}

-- What comes of one replica: the pass is over, with an error or without; the loop ends; or it goes on.
pub data Visited : Type 0 where
  returned : Bool → Run → Visited
  broken : Run → Visited
  visited : Run → Visited

abbrev recreated : Pass → ℕ → Pod → Run → Option (Bool × List Sent) → Option (Pod × Run)
recreated p i pod r none = none
recreated p i pod r (some (modified, log)) =
    let fresh = new_versioned_stateful_set_pod p i r.replicas in
    let status = counts_down p pod r.status in
    some (
      fresh,
      record r {
        status = record status { replicas = status.replicas -ℤ pos 1 };
        replicas = put r.replicas i fresh;
        log = log;
      },
    )

-- A failed pod is deleted, and a new one takes its place. `none` is an error.
unfoldable pub recreate_failed : Pass → ℕ → Pod → Run → Option (Pod × Run)
unfolding is_failed delete_pod new_versioned_stateful_set_pod
recreate_failed p i pod r =
    if is_failed pod then recreated p i pod r (delete_pod p pod r.log) else some (pod, r)

-- Whether the claims of the pod are stale; `none` is an error.
abbrev stale : Pass → Pod → Option Bool
stale p pod = if p.world.auto_delete_pvc then p.world.pod_claim_is_stale pod else some false

abbrev with_budget : Run → Option ℤ → Run
with_budget r budget = record r { budget = budget }

-- After a creation.
abbrev created : Pass → Run → Visited
created p r =
    let (left, is_all) = decrease_and_check_max_unavailable r.budget in
    if monotonic p
    then returned false r
    else if is_all
    then broken (with_budget r left)
    else visited (with_budget r left)

unfoldable pub create_replica : Pass → ℕ → Pod → Run → Visited
unfolding decrease_and_check_max_unavailable set_pod_lifecycle
create_replica p i pod r =
    let normal = record pod { meta = set_pod_lifecycle LifecycleState.normal pod.meta } in
    let replicas = put r.replicas i normal in
    let status = counts_up p normal r.status in
    elim (stale p pod) [
      | none ↦ returned true r
      | some true ↦ returned false r
      | some false ↦
          if p.world.accepts_creation r.log normal
          then created p (record r {
            replicas = replicas;
            status = record status { replicas = status.replicas +ℤ pos 1 };
            log = creates normal ∷ r.log;
          })
          else returned true (record r {
            replicas = replicas;
            status = record r.status { failed = some "FailedCreatePod" };
          })
    ]

abbrev claims_match : Pass → Pod → Bool
claims_match p pod =
    if p.world.auto_delete_pvc
    then elim (p.world.claims_match_retention_policy pod) [ none ↦ true | some b ↦ b ]
    else true

-- The identity and the volumes of a pod are put right.
unfoldable pub enforce : Pass → Pod → Run → Visited
unfolding identity_matches
enforce p pod r =
    if identity_matches p.set.name p.set.namespace pod.identity
      && (p.world.storage_matches pod && claims_match p pod)
    then visited r
    else if p.world.accepts_update r.log pod
    then visited (record r { log = updates pod ∷ r.log })
    else returned true (record r { status = record r.status { failed = some "FailedUpdatePod" } })

-- A pod that is there is waited for until it is available.
unfoldable pub await_available : Pass → Pod → Run → Visited
unfolding get_min_ready_seconds decrease_and_check_max_unavailable
await_available p pod r =
    let (available, wait_time) =
      is_running_and_available (pos p.world.now) (get_min_ready_seconds p.set) pod in
    let (left, is_all) = decrease_and_check_max_unavailable r.budget in
    if not available && monotonic p
    then returned false (push_after p.key wait_time r)
    else if not available && is_all
    then broken (push_after p.key wait_time (with_budget r left))
    else enforce p pod (with_budget r (if available then r.budget else left))

-- A pod that was created.
unfoldable pub inspect : Pass → Pod → Run → Visited
unfolding decrease_and_check_max_unavailable
inspect p pod r =
    let (left, is_all) = decrease_and_check_max_unavailable r.budget in
    let after = with_budget r (if pod.terminating then left else r.budget) in
    if pod.terminating && monotonic p
    then returned false r
    else if pod.terminating && is_all
    then broken after
    else elim (p.world.refresh r.log pod) [
      | none ↦ returned true after
      | some delay ↦
          let pushed = push_after p.key delay after in
          if monotonic p || is_some after.budget
          then await_available p pod pushed
          else enforce p pod pushed
    ]

unfoldable pub visit_replica : Pass → ℕ → Pod → Run → Visited
visit_replica p i pod r = elim (recreate_failed p i pod r) [
  | none ↦ returned true r
  | some (pod', r') ↦
      if not (is_created pod') then create_replica p i pod' r' else inspect p pod' r'
]

-- Whether the pass is over after the loop, with an error or without.
pub data Looped : Type 0 where
  over : Bool → Run → Looped
  through : Run → Looped

unfoldable pub visit_replicas : Pass → ℕ → List (Option Pod) → Run → Looped
visit_replicas p i [] r = through r
visit_replicas p i (none ∷ rest) r = visit_replicas p (i + 1) rest r
visit_replicas p i (some pod ∷ rest) r = elim (visit_replica p i pod r) [
  | returned failed r' ↦ over failed r'
  | broken r' ↦ through r'
  | visited r' ↦ visit_replicas p (i + 1) rest r'
]
