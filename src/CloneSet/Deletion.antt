-- ===== src/CloneSet/Deletion.antt =====
-- Deletions of pkg/controller/cloneset/sync/cloneset_scale.go: `deletePods`, and the two ways in
-- which the pods to delete are found, `getPlannedDeletedPods` and `choosePodsToDelete`.
pub mod Keeps
pub mod Awaited
pub mod Chosen
mod Examples
use kruise.Prelude.{
  ℕ, zero, suc, ◌+◌, ◌-◌, String, str_eq, Bool, true, false, ◌&&◌, ◌||◌, not, Option, none, some,
  List, [], ◌∷◌, ◌++◌, if◌then◌else◌, ltb, leb, length, take, keep,
}
use kruise.Prelude.Int.{ℤ, pos, ◌+ℤ◌, ◌-ℤ◌, ltb_ℤ, leb_ℤ, pos_part}
use kruise.Prelude.Assoc.{Assoc, lookup, Names, add, has}
use kruise.Util.LifecycleState
use kruise.Util.Pods.{Pod, Lifecycle, LifecycleHook, label, get_pod_lifecycle_state, is_pod_hooked}
use kruise.Expectations.Scale
use kruise.CloneSet.Types.{CloneSet, Env, is_pod_specified_delete, is_pod_ready}
use kruise.CloneSet.Writes.{
  Api, Written, attempt, LifecycleUpdate, failed, unchanged, updated, update_pod_lifecycle, note,
  moves,
}

pub record Pvc : Type 0 where
  pub name : String
  pub labels : Assoc String

abbrev pub instance_id_key : String
instance_id_key = "apps.kruise.io/cloneset-instance-id"

abbrev pub pvc_instance_id : Pvc → String
pvc_instance_id pvc = elim (lookup instance_id_key pvc.labels) [ none ↦ "" | some v ↦ v ]

-- What a step of a sync comes to: what it wrote, whether it changed anything, and whether it failed.
pub record Outcome : Type 0 where
  pub written : Written
  pub modified : Bool
  pub failed : Bool

abbrev pre_delete_hook : Option Lifecycle → Option LifecycleHook
pre_delete_hook none = none
pre_delete_hook (some l) = l.pre_delete

-- The hook, if it holds the pod.
abbrev pub holding_hook : Option Lifecycle → Pod → Option LifecycleHook
holding_hook lifecycle pod = elim (pre_delete_hook lifecycle) [
  | none ↦ none
  | some h ↦ if is_pod_hooked (some h) pod then some h else none
]

module _ (api : Api) (key : String) where
  -- The PVCs with the pod's instance id, up to the first that is refused: whether none is.
  unfoldable pub delete_pvcs : String → List Pvc → Written → Written × Bool
  delete_pvcs id [] w = (w, true)
  delete_pvcs id (pvc ∷ pvcs) w =
      let ok = api.accepts_pvc w.log Scale.delete pvc.name in
      let next = attempt key Scale.delete pvc.name ok w in
      let rest = delete_pvcs id pvcs next in
      let skipped = delete_pvcs id pvcs w in
      if not (str_eq (pvc_instance_id pvc) id) then skipped else if ok then rest else (next, false)

  abbrev pub hooked : Pod → LifecycleUpdate → Written → Bool → Outcome
  hooked pod failed w modified = record { written = w; modified = false; failed = true }
  hooked pod unchanged w modified = record { written = w; modified = modified; failed = false }
  hooked pod (updated got) w modified = record {
    written = note (moves pod.name LifecycleState.preparing_delete) got w;
    modified = true;
    failed = false;
  }

  -- A pod that no hook holds: the pod, then its PVCs.
  abbrev deleted : Pod → List Pvc → Written → Bool → Outcome
  deleted pod pvcs w modified =
      let ok = api.accepts_pod w.log Scale.delete pod.name in
      let next = attempt key Scale.delete pod.name ok w in
      let (all, done) = delete_pvcs (label instance_id_key pod) pvcs next in
      if ok
      then record { written = all; modified = true; failed = not done }
      else record { written = next; modified = modified; failed = true }

  -- One round of the loop of `deletePods`.
  unfoldable pub delete_pod : Option LifecycleHook → Pod → List Pvc → Written → Bool → Outcome
  unfolding delete_pvcs
  delete_pod none pod pvcs w modified = deleted pod pvcs w modified
  delete_pod (some h) pod pvcs w modified =
      hooked pod (update_pod_lifecycle api pod LifecycleState.preparing_delete h.mark_pod_not_ready)
        w modified

  -- The loop, with what was changed before it.
  unfoldable pub delete_from : Option Lifecycle → List Pod → List Pvc → Written → Bool → Outcome
  delete_from lifecycle [] pvcs w modified = record {
    written = w;
    modified = modified;
    failed = false;
  }
  delete_from lifecycle (pod ∷ pods) pvcs w modified =
      let o = delete_pod (holding_hook lifecycle pod) pod pvcs w modified in
      let rest = delete_from lifecycle pods pvcs o.written o.modified in
      if o.failed then o else rest

  unfoldable pub delete_pods : Option Lifecycle → List Pod → List Pvc → Written → Outcome
  unfolding delete_from
  delete_pods lifecycle pods pvcs w = delete_from lifecycle pods pvcs w false

abbrev pub is_in_pre_delete : Pod → Bool
is_in_pre_delete pod = str_eq (get_pod_lifecycle_state pod) LifecycleState.preparing_delete

-- `getPlannedDeletedPods`.
pub record Planned : Type 0 where
  pub specified : List Pod
  pub in_pre_delete : List Pod
  pub num_to_delete : ℕ

abbrev planned_names : CloneSet → List Pod → Names → Names
planned_names cs [] names = names
planned_names cs (pod ∷ pods) names =
    planned_names cs pods
      (if is_pod_specified_delete cs pod || is_in_pre_delete pod then add pod.name names else names)

unfoldable pub get_planned_deleted_pods : CloneSet → List Pod → Planned
get_planned_deleted_pods cs pods = record {
  specified = keep (is_pod_specified_delete cs) pods;
  in_pre_delete = keep is_in_pre_delete pods;
  num_to_delete = length (planned_names cs pods []);
}

abbrev pub names_of : List Pod → Names → Names
names_of [] names = names
names_of (pod ∷ pods) names = names_of pods (add pod.name names)

-- `DiffPods` of pkg/util/pods.go.
unfoldable pub diff_pods : List Pod → List Pod → List Pod
diff_pods pods1 pods2 = keep (λ p. not (has p.name (names_of pods2 []))) pods1

-- The pods that may be deleted now: those that are not ready, and of the others the first `limit`.
unfoldable pub within_ready_limit : Env → ℕ → List Pod → List Pod
within_ready_limit env limit [] = []
within_ready_limit env limit (pod ∷ pods) =
    let spent = within_ready_limit env (limit - 1) pods in
    let same = within_ready_limit env limit pods in
    if not (is_pod_ready env pod) then pod ∷ same else if ltb 0 limit then pod ∷ spent else same

-- What is left of the limit after them.
unfoldable pub ready_limit_left : Env → ℕ → List Pod → ℕ
ready_limit_left env limit [] = limit
ready_limit_left env limit (pod ∷ pods) =
    ready_limit_left env (if is_pod_ready env pod then limit - 1 else limit) pods

-- `choose`, with the ranking of the pods as a parameter.
abbrev pub choose : (List Pod → List Pod) → List Pod → ℕ → List Pod
choose sort pods diff = if ltb diff (length pods) then take diff (sort pods) else pods

unfoldable pub choose_pods_to_delete :
    (List Pod → List Pod) → ℤ → ℤ → List Pod → List Pod → List Pod
choose_pods_to_delete sort total_diff current_rev_diff old_pods new_pods =
    if leb_ℤ total_diff current_rev_diff
    then choose sort old_pods (pos_part total_diff)
    else if ltb_ℤ (pos 0) current_rev_diff
    then choose sort old_pods (pos_part current_rev_diff)
      ++ choose sort new_pods (pos_part (total_diff -ℤ current_rev_diff))
    else choose sort new_pods (pos_part total_diff)
