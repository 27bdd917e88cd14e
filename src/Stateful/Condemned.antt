-- ===== src/Stateful/Condemned.antt =====
-- The part of `updateStatefulSet` of pkg/controller/statefulset/stateful_set_control.go that scales
-- down: the claims of the condemned pods, and their deletion from the highest ordinal on.
pub mod OneByOne
pub mod LastFirst
use kruise.Prelude.{
  ℕ, zero, suc, ◌+◌, ◌-◌, String, str_eq, Bool, true, false, ◌&&◌, ◌||◌, not, Option, none, some,
  List, [], ◌∷◌, if◌then◌else◌, ◌==◌, ◌<>◌,
}
use kruise.Prelude.Int.{ℤ, pos}
use kruise.Stateful.Types.{Pod, Sent, claims, is_running_and_available}
use kruise.Stateful.Pass.{
  Pass, Run, monotonic, counts_down, push_after, delete_pod, get_min_ready_seconds,
}
use kruise.Stateful.Replicas.{Looped, over, through}

-- The owners of the claims of the condemned pods. The pass is over at the first error.
unfoldable pub match_claims : Pass → List Pod → Run → Looped
match_claims p [] r = through r
match_claims p (pod ∷ pods) r =
    let left_alone = match_claims p pods r in
    let sent = match_claims p pods (record r { log = claims pod ∷ r.log }) in
    elim (p.world.claims_match_retention_policy pod) [
      | none ↦ over true r
      | some true ↦ left_alone
      | some false ↦ if p.world.accepts_claims r.log pod then sent else over true r
    ]

unfoldable pub match_condemned_claims : Pass → List Pod → Run → Looped
unfolding match_claims
match_condemned_claims p condemned r =
    if p.world.auto_delete_pvc then match_claims p condemned r else through r

abbrev is_at : ℕ → Option ℕ → Bool
is_at i none = false
is_at i (some j) = i == j

-- The key of a pod, under which the source notes the wait for it.
abbrev pub pod_key : Pass → Pod → String
pod_key p pod = p.world.text pod.identity.namespace <> ("/" <> pod.meta.name)

-- After the deletion of a pod. The status counts it as gone where nothing was changed.
abbrev terminated : Pass → Pod → Looped → Run → Option (Bool × List Sent) → Looped
terminated p pod kept r none = over true r
terminated p pod kept r (some (true, log)) = over false (record r { log = log })
terminated p pod kept r (some (false, log)) =
    if monotonic p then over false (record r { status = counts_down p pod r.status }) else kept

-- The order of the loop, from the last pod to the first.
abbrev pub reverse_onto : List Pod → List Pod → List Pod
reverse_onto [] pods = pods
reverse_onto (c ∷ cs) pods = reverse_onto cs (c ∷ pods)

-- The condemned pods from the last to the first; `i` of them are left before `pod`, and
-- `first_unhealthy` is the place of the unhealthy one that may go.
unfoldable pub terminate_condemned : Pass → Option ℕ → List Pod → ℕ → Run → Looped
unfolding get_min_ready_seconds delete_pod
terminate_condemned p first_unhealthy [] i r = through r
terminate_condemned p first_unhealthy (pod ∷ pods) i r =
    let (available, wait_time) =
      is_running_and_available (pos p.world.now) (get_min_ready_seconds p.set) pod in
    let waited = terminate_condemned p first_unhealthy pods (i - 1) r in
    let kept =
      terminate_condemned p first_unhealthy pods (i - 1)
        (record r { status = counts_down p pod r.status }) in
    if pod.terminating
    then if monotonic p then over false r else waited
    else if not available && (not (is_at i first_unhealthy) && monotonic p)
    then over false (push_after (pod_key p pod) wait_time r)
    else terminated p pod kept r (delete_pod p pod r.log)
