-- ===== src/CloneSet/Creation.antt =====
-- Creations of pkg/controller/cloneset/sync/cloneset_scale.go: `createPods` and `createOnePod`.
pub mod Naming
pub mod Sent
pub mod Rollback
pub mod Log
pub mod Announced
mod Examples
use kruise.Prelude.{
  ℕ, ◌+◌, String, Bool, true, false, Option, none, some, List, [], ◌∷◌, map, if◌then◌else◌, ◌==◌,
  length,
}
use kruise.Prelude.Assoc.{Names, add, has}
use kruise.Util.LifecycleState
use kruise.Util.Pods.{Pod, set_pod_lifecycle}
use kruise.Util.Batch.{BatchResult, do_it_slowly}
use kruise.Expectations.Scale
use kruise.Expectations.Scale.{expect_scale, observe_scale}
use kruise.CloneSet.Writes.{Api, Attempt, Written, attempt}

-- The state of the calls that run in the batches: the pods that were created are counted, and their
-- names stored.
pub record Creating : Type 0 where
  pub written : Written
  pub created : ℕ
  pub success : Names

module _ (api : Api) (key : String) where
  -- The claims that do not exist yet, up to the first that is refused: whether none is.
  unfoldable pub create_claims : Names → List String → Written → Written × Bool
  create_claims existing [] w = (w, true)
  create_claims existing (c ∷ claims) w =
      let ok = api.accepts_pvc w.log Scale.create c in
      let next = attempt key Scale.create c ok w in
      let rest = create_claims existing claims next in
      let skipped = create_claims existing claims w in
      if has c existing then skipped else if ok then rest else (next, false)

  -- The creation of a pod, whose name is announced already.
  unfoldable pub send_pod : Pod → Written → Written × Bool
  send_pod pod w =
      let ok = api.accepts_pod w.log Scale.create pod.name in
      (
        record w { log = record { action = Scale.create; name = pod.name; accepted = ok } ∷ w.log },
        ok,
      )

  unfoldable pub create_one_pod : Names → List String → Pod → Written → Written × Bool
  unfolding create_claims send_pod
  create_one_pod existing claims pod w =
      let (next, ok) = create_claims existing claims w in
      if ok then send_pod pod next else (next, false)

  -- The function that the batches call. `claims_of` are the names of the claims of a pod, by the
  -- templates of its CloneSet.
  unfoldable pub create_call : (Pod → List String) → Names → Pod → Creating → Creating × Bool
  unfolding create_one_pod
  create_call claims_of existing pod s =
      let started = set_pod_lifecycle LifecycleState.preparing_normal pod in
      let (next, ok) = create_one_pod existing (claims_of started) started s.written in
      if ok
      then (
        record { written = next; created = s.created + 1; success = add pod.name s.success },
        true,
      )
      else (record s { written = next }, false)

  -- Every pod is announced before the first is sent.
  unfoldable pub announce : List Pod → Written → Written
  announce [] w = w
  announce (pod ∷ pods) w =
      announce pods (record w { scale = expect_scale w.scale key Scale.create pod.name })

  -- The pods that were not created are taken back.
  unfoldable pub rollback : List Pod → Names → Written → Written
  rollback [] success w = w
  rollback (pod ∷ pods) success w = rollback pods success (
      if has pod.name success
      then w
      else record w { scale = observe_scale w.scale key Scale.create pod.name })

  pub record Created : Type 0 where
    pub written : Written
    pub names : Names
    pub modified : Bool
    pub failed : Bool

  -- `createPods`, for the pods of `NewVersionedPods`.
  unfoldable pub create_pods : (Pod → List String) → Names → List Pod → Written → Created
  unfolding create_call announce rollback
  create_pods claims_of existing pods w =
      let start : Creating = record { written = announce pods w; created = 0; success = [] } in
      let r = do_it_slowly (create_call claims_of existing) pods 1 start in
      record {
        written = rollback pods r.state.success r.state.written;
        names = r.state.success;
        modified = if r.state.created == 0 then false else true;
        failed = r.failed;
      }
