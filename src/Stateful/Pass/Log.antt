-- ===== src/Stateful/Pass/Log.antt =====
-- What a pass sent, told apart, and what the deletion of a pod sends.
use kruise.Prelude.{inl, inr, Bool, true, false, Option, none, some, List, ◌∷◌, Bool-cases}
use kruise.Util.LifecycleState
use kruise.Util.Pods.{is_pod_hooked}
use kruise.Stateful.Types.{Pod, Sent, creates, deletes, moves, updates, claims, in_place}
use kruise.Stateful.Pass.{Pass, delete_pod, pre_delete_hook, marks_not_ready}
use kruise.CloneSet.Writes.{update_pod_lifecycle, LifecycleUpdate-cases}

abbrev pub is_creation : Sent → Bool
is_creation (creates pod) = true
is_creation (deletes pod) = false
is_creation (moves pod state) = false
is_creation (updates pod) = false
is_creation (claims pod) = false
is_creation (in_place pod) = false

-- A deletion, or a step of the lifecycle.
abbrev pub is_removal : Sent → Bool
is_removal (creates pod) = false
is_removal (deletes pod) = true
is_removal (moves pod state) = true
is_removal (updates pod) = false
is_removal (claims pod) = false
is_removal (in_place pod) = false

-- What the deletion of a pod sends: nothing, the deletion, or the step to PreparingDelete.
pub data Deletes (pod : Pod) (log : List Sent) : Option (Bool × List Sent) → Type 0 where
  refused : Deletes pod log none
  kept : Deletes pod log (some (false, log))
  gone : Deletes pod log (some (true, deletes pod ∷ log))
  prepared : Deletes pod log (some (true, moves pod LifecycleState.preparing_delete ∷ log))

pub delete_pod-Deletes :
    (p : Pass) (pod : Pod) (log : List Sent) → Deletes pod log (delete_pod p pod log)
unfolding delete_pod
delete_pod-Deletes p pod log =
    let hook = pre_delete_hook p.set.lifecycle in
    elim (Bool-cases (is_pod_hooked hook pod.meta)) [
      | inl hooked ↦
          rw hooked
            (elim (LifecycleUpdate-cases (
              update_pod_lifecycle p.world.api pod.meta LifecycleState.preparing_delete
                (marks_not_ready hook))) [
                  | inl e ↦ rw e refused
                  | inr (inl e) ↦ rw e kept
                  | inr (inr (got, e)) ↦ rw e prepared
                ])
      | inr free ↦ rw free (elim (Bool-cases (p.world.accepts_deletion log pod)) [
        | inl yes' ↦ rw yes' gone
        | inr no' ↦ rw no' refused
      ])
    ]
