-- ===== src/CloneSet/Creation/Sent.antt =====
-- What is awaited while the batches of `createPods` run.
use kruise.Prelude.{
  ◌≡◌, refl, sym, ◌∙◌, String, str_eq, Bool, true, false, ◌&&◌, List, [], ◌∷◌, arith, if◌then◌else◌,
  Bool-cases, inl, inr,
}
use kruise.Prelude.Assoc.{Names, has, has-add}
use kruise.Util.LifecycleState
use kruise.Util.Pods.{Pod, set_pod_lifecycle}
use kruise.Expectations.Scale
use kruise.Expectations.Scale.{ScaleAction, expect_scale, observe_scale}
use kruise.Expectations.Scale.Pending.{pending}
use kruise.CloneSet.Writes.{Api, Written, attempt}
use kruise.CloneSet.Writes.Ledger.{last_accepted, pending-attempt}
use kruise.CloneSet.Creation.{Creating, create_claims, send_pod, create_one_pod, create_call}
use kruise.CloneSet.Creation.Naming.{
  is_named, AreOthers, not_named, is_named_of, announced_step, sent_step, named_differ, was_created,
}

module _ (api : Api) (key : String) (cache : Scale.Cache) (pods : List Pod) where
  -- While the pods are sent: those that are announced are awaited; the rest is a ledger.
  abbrev awaited : ScaleAction → String → Bool → Bool → Bool
  awaited a n success other = if str_eq Scale.create a && is_named n pods then success else other

  abbrev pub IsAnnounced : (String → Bool) → Written → Type 0
  IsAnnounced success w =
      (c a n : String)
      → pending w.scale c a n ≡ (
          if str_eq key c
          then awaited a n (success n) (last_accepted a n (pending cache c a n) w.log)
          else pending cache c a n)

  attempt-IsAnnounced :
      (f : String → Bool) (name : String) (ok : Bool) (w : Written)
      → is_named name pods ≡ false
      → IsAnnounced f w
      → IsAnnounced f (attempt key Scale.create name ok w)
  unfolding attempt
  attempt-IsAnnounced f name ok w other h c a n =
      pending-attempt key Scale.create name ok w c a n
      ∙ announced_step key name c a n ok _ _ _ _ _ (not_named name n pods other) (h c a n)

  create_claims-IsAnnounced :
      (f : String → Bool) (existing : Names) (claims : List String) (w : Written)
      → AreOthers pods claims
      → IsAnnounced f w
      → IsAnnounced f (create_claims api key existing claims w).0
  unfolding create_claims
  create_claims-IsAnnounced f existing [] w o h = h
  create_claims-IsAnnounced f existing (x ∷ claims) w o h =
      let ok = api.accepts_pvc w.log Scale.create x in
      let next = attempt-IsAnnounced f x ok w o.0 h in
      elim (Bool-cases (has x existing)) [
        | inl there ↦ rw there (create_claims-IsAnnounced f existing claims w o.1 h)
        | inr absent ↦ elim (Bool-cases ok) [
          | inl good ↦
              rw (absent, good)
                (create_claims-IsAnnounced f existing claims _ o.1 (rw (← good) next))
          | inr bad ↦ rw (absent, bad) (rw (← bad) next)
        ]
      ]

  send_pod-IsAnnounced :
      (f : String → Bool) (pod : Pod) (w : Written)
      → is_named pod.name pods ≡ true
      → IsAnnounced f w
      → IsAnnounced f (send_pod api key pod w).0
  unfolding send_pod
  send_pod-IsAnnounced f pod w named h c a n =
      h c a n ∙ sent_step key pod.name c a n _ _ _ _ _ (is_named_of pod.name n pods named)

  create_one_pod-IsAnnounced :
      (f : String → Bool) (existing : Names) (claims : List String) (pod : Pod) (w : Written)
      → is_named pod.name pods ≡ true
      → AreOthers pods claims
      → IsAnnounced f w
      → IsAnnounced f (create_one_pod api key existing claims pod w).0
  unfolding create_one_pod
  create_one_pod-IsAnnounced f existing claims pod w named o h =
      let first = create_claims-IsAnnounced f existing claims w o h in
      elim (Bool-cases (create_claims api key existing claims w).1) [
        | inl good ↦
            rw good
              (send_pod-IsAnnounced f pod (create_claims api key existing claims w).0 named first)
        | inr bad ↦ rw bad first
      ]

  pub create_call-IsAnnounced :
      (claims_of : Pod → List String) (existing : Names) (pod : Pod) (s : Creating)
      → (is_named pod.name pods ≡ true)
        × AreOthers pods (claims_of (set_pod_lifecycle LifecycleState.preparing_normal pod))
      → IsAnnounced (λ n. true) s.written
      → IsAnnounced (λ n. true) (create_call api key claims_of existing pod s).0.written
  unfolding create_call set_pod_lifecycle
  create_call-IsAnnounced claims_of existing pod s q h =
      let started = set_pod_lifecycle LifecycleState.preparing_normal pod in
      let next =
        create_one_pod-IsAnnounced (λ n. true) existing (claims_of started) started s.written q.0
          q.1 h in
      elim (Bool-cases (create_one_pod api key existing (claims_of started) started s.written).1) [
        | inl good ↦ rw good next
        | inr bad ↦ rw bad next
      ]

  -- The stored names are those that were created.
  abbrev pub AreStored : Creating → Type 0
  AreStored s =
      (n : String) → is_named n pods ≡ true → has n s.success ≡ was_created n s.written.log

  create_claims-created :
      (existing : Names) (claims : List String) (w : Written)
      → AreOthers pods claims
      → (n : String) → is_named n pods ≡ true
      → was_created n (create_claims api key existing claims w).0.log ≡ was_created n w.log
  unfolding create_claims attempt
  create_claims-created existing [] w o n named = refl
  create_claims-created existing (x ∷ claims) w o n named =
      let ok = api.accepts_pvc w.log Scale.create x in
      let other : str_eq x n ≡ false = named_differ x n pods o.0 named in
      elim (Bool-cases (has x existing)) [
        | inl there ↦ rw there (create_claims-created existing claims w o.1 n named)
        | inr absent ↦ elim (Bool-cases ok) [
          | inl good ↦
              rw (absent, good)
                (create_claims-created existing claims (attempt key Scale.create x true w) o.1 n
                    named
                  ∙ rw other refl)
          | inr bad ↦ rw (absent, bad, other) refl
        ]
      ]

  pub create_call-AreStored :
      (claims_of : Pod → List String) (existing : Names) (pod : Pod) (s : Creating)
      → (is_named pod.name pods ≡ true)
        × AreOthers pods (claims_of (set_pod_lifecycle LifecycleState.preparing_normal pod))
      → AreStored s
      → AreStored (create_call api key claims_of existing pod s).0
  unfolding create_call create_one_pod send_pod set_pod_lifecycle
  create_call-AreStored claims_of existing pod s q h n named =
      let started = set_pod_lifecycle LifecycleState.preparing_normal pod in
      let claimed = create_claims api key existing (claims_of started) s.written in
      let same = create_claims-created existing (claims_of started) s.written q.1 n named in
      elim (Bool-cases claimed.1) [
        | inr bad ↦ rw bad (h n named ∙ sym same)
        | inl good ↦ elim (Bool-cases (api.accepts_pod claimed.0.log Scale.create pod.name)) [
          | inl yes' ↦
              rw (good, yes') (has-add pod.name n s.success ∙ ground (arith, same, h n named))
          | inr no' ↦ rw (good, no') (h n named ∙ sym same ∙ ground arith)
        ]
      ]
