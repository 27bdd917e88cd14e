-- ===== src/CloneSet/Creation/Announced.antt =====
-- What is awaited after `createPods`.
use kruise.Prelude.{
  ◌≡◌, refl, ◌∙◌, String, str_eq, Bool, true, false, not, ◌&&◌, List, [], arith, if◌then◌else◌, All,
}
use kruise.Prelude.Assoc.{Names}
use kruise.Util.LifecycleState
use kruise.Util.Pods.{Pod, set_pod_lifecycle}
use kruise.Util.Batch.{do_it_slowly}
use kruise.Util.Batch.Invariant.{do_it_slowly-keeps}
use kruise.Expectations.Scale
use kruise.Expectations.Scale.{ScaleAction, expect_scale, observe_scale}
use kruise.Expectations.Scale.Pending.{pending}
use kruise.CloneSet.Writes.{Api, Written}
use kruise.CloneSet.Writes.Ledger.{last_accepted}
use kruise.CloneSet.Creation.{Creating, create_call, announce, create_pods}
use kruise.CloneSet.Creation.Naming.{is_named, AreOthers, was_created, is_named-All, All-zip}
use kruise.CloneSet.Creation.Sent.{
  IsAnnounced, AreStored, create_call-IsAnnounced, create_call-AreStored,
}
use kruise.CloneSet.Creation.Rollback.{
  pending-announce, log-announce, pending-rollback, log-rollback,
}

final_step :
    (key c a : String) (named stored created before accepted base : Bool)
    → before
      ≡ (if str_eq key c then (if str_eq Scale.create a && named then true else accepted) else base)
    → (named ≡ true → stored ≡ created)
    → (if str_eq key c && (str_eq Scale.create a && (named && not stored)) then false else before)
      ≡ (if str_eq key c
          then (if str_eq Scale.create a && named then created else accepted)
          else base)
final_step key c a true stored created before accepted base h e = ground (arith, e refl)
final_step key c a false stored created before accepted base h e = ground arith

module _ (api : Api) (key : String) (claims_of : Pod → List String) (existing : Names)
    (pods : List Pod) (w : Written) where
  -- No claim of a pod bears the name of a pod.
  abbrev pub HaveOwnNames : Type 0
  HaveOwnNames =
      All
        (λ (p : Pod).
          AreOthers pods (claims_of (set_pod_lifecycle LifecycleState.preparing_normal p)))
        pods

  abbrev start : Creating
  start = record { written = announce api key pods w; created = 0; success = [] }

  abbrev end : Creating
  end = (do_it_slowly (create_call api key claims_of existing) pods 1 start).state

  batches-keep :
      w.log ≡ []
      → HaveOwnNames
      → IsAnnounced api key w.scale pods (λ n. true) end.written
        × AreStored api key w.scale pods end
  batches-keep empty own =
      do_it_slowly-keeps (create_call api key claims_of existing)
        (λ (p : Pod).
          (is_named p.name pods ≡ true)
          × AreOthers pods (claims_of (set_pod_lifecycle LifecycleState.preparing_normal p)))
        (λ s.
          IsAnnounced api key w.scale pods (λ n. true) s.written × AreStored api key w.scale pods s)
        (λ p s q h. (
          create_call-IsAnnounced api key w.scale pods claims_of existing p s q h.0,
          create_call-AreStored api key w.scale pods claims_of existing p s q h.1,
        ))
        pods 1 start
        (All-zip (λ p. is_named p.name pods ≡ true) _ pods (is_named-All pods pods (λ n e. e)) own)
        (
          λ c a n.
              pending-announce api key pods w c a n
              ∙ rw (log-announce api key pods w, empty) (ground arith),
          λ n e. rw (log-announce api key pods w, empty) refl,
        )

  -- With nothing sent before, and no claim of a pod with the name of a pod: whatever the API server
  -- answers and wherever the batches stop, the controller awaits the creation of those of the new
  -- pods that were created, and of no other new one; it awaits a claim exactly if its last creation
  -- was accepted; and no other action or controller is touched.
  pub create_pods-awaited :
      w.log ≡ []
      → HaveOwnNames
      → (c a n : String)
      → let r = create_pods api key claims_of existing pods w in
        pending r.written.scale c a n ≡ (
          if str_eq key c
          then (if str_eq Scale.create a && is_named n pods
              then was_created n r.written.log
              else last_accepted a n (pending w.scale c a n) r.written.log)
          else pending w.scale c a n)
  unfolding create_pods
  create_pods-awaited empty own c a n =
      let kept = batches-keep empty own in
      pending-rollback api key pods end.success end.written c a n
      ∙ rw (log-rollback api key pods end.success end.written)
          (final_step key c a (is_named n pods) _ _ _ _ _ (kept.0 c a n) (kept.1 n))
