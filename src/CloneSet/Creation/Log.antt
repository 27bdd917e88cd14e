-- ===== src/CloneSet/Creation/Log.antt =====
-- The invariant rule of `createPods` for the log of what was sent.
use kruise.Prelude.{String, Bool, List, [], ◌∷◌, Bool-cases, inl, inr, All}
use kruise.Prelude.Assoc.{Names, has}
use kruise.Util.LifecycleState
use kruise.Util.Pods.{Pod, set_pod_lifecycle}
use kruise.Util.Batch.Invariant.{do_it_slowly-keeps}
use kruise.Expectations.Scale
use kruise.CloneSet.Writes.{Api, Attempt, Written, attempt}
use kruise.CloneSet.Creation.{
  Creating, create_claims, send_pod, create_one_pod, create_call, create_pods,
}
use kruise.CloneSet.Creation.Rollback.{log-announce, log-rollback}

module _ {ℓ} (api : Api) (key : String) (L : List Attempt → Type ℓ)
    (sends : (name : String) (ok : Bool) (log : List Attempt)
      → L log
      → L (record { action = Scale.create; name = name; accepted = ok } ∷ log)) where
  create_claims-keeps :
      (existing : Names) (claims : List String) (w : Written)
      → L w.log
      → L (create_claims api key existing claims w).0.log
  unfolding create_claims attempt
  create_claims-keeps existing [] w h = h
  create_claims-keeps existing (c ∷ claims) w h =
      let ok = api.accepts_pvc w.log Scale.create c in
      let next = sends c ok w.log h in
      elim (Bool-cases (has c existing)) [
        | inl there ↦ rw there (create_claims-keeps existing claims w h)
        | inr absent ↦ elim (Bool-cases ok) [
          | inl good ↦ rw (absent, good) (create_claims-keeps existing claims _ (rw (← good) next))
          | inr bad ↦ rw (absent, bad) (rw (← bad) next)
        ]
      ]

  create_call-keeps :
      (claims_of : Pod → List String) (existing : Names) (pod : Pod) (s : Creating)
      → Unit {0}
      → L s.written.log
      → L (create_call api key claims_of existing pod s).0.written.log
  unfolding create_call create_one_pod send_pod set_pod_lifecycle
  create_call-keeps claims_of existing pod s q h =
      let started = set_pod_lifecycle LifecycleState.preparing_normal pod in
      let claimed = create_claims api key existing (claims_of started) s.written in
      let kept = create_claims-keeps existing (claims_of started) s.written h in
      let sent =
        sends pod.name (api.accepts_pod claimed.0.log Scale.create pod.name) claimed.0.log kept in
      elim (Bool-cases claimed.1) [
        | inr bad ↦ rw bad kept
        | inl good ↦ elim (Bool-cases (api.accepts_pod claimed.0.log Scale.create pod.name)) [
          | inl yes' ↦ rw (good, yes') (rw (← yes') sent)
          | inr no' ↦ rw (good, no') (rw (← no') sent)
        ]
      ]

  All-any : (pods : List Pod) → All (λ (p : Pod). Unit {0}) pods
  All-any [] = tt
  All-any (p ∷ pods) = (tt, All-any pods)

  pub create_pods-keeps :
      (claims_of : Pod → List String) (existing : Names) (pods : List Pod) (w : Written)
      → L w.log
      → L (create_pods api key claims_of existing pods w).written.log
  unfolding create_pods
  create_pods-keeps claims_of existing pods w h = rw (log-rollback api key pods _ _) (
      do_it_slowly-keeps (create_call api key claims_of existing) (λ p. Unit {0})
        (λ s. L s.written.log) (create_call-keeps claims_of existing) pods 1 _ (All-any pods)
        (rw (log-announce api key pods w) h))
