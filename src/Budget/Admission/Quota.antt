-- ===== src/Budget/Admission/Quota.antt =====
-- However requests interleave, and however old the copies are that they work on, the pods that are
-- admitted do not exceed what the budget allows.
use kruise.Prelude.{
  str_eq, ◌||◌, ℕ, zero, suc, ◌+◌, ◌≡◌, refl, sym, ap, ◌∙◌, ◌⊎◌, inl, inr, arith, String, Bool,
  true, false, ◌&&◌, not, Bool-cases, Option-cases, some, List, [], ◌∷◌, if◌then◌else◌,
}
use kruise.Prelude.Int.{
  ℤ, pos, ◌+ℤ◌, ◌-ℤ◌, ◌≤ℤ◌, ◌<ℤ◌, wrap32, IsInt32, int_laws, eq_of_parts, parts_apart,
}
use kruise.Budget.Types.{Pub, Status}
use kruise.Budget.Admission.{
  Request, Round, Outcome, UpdateResult, written, updated, conflict, failed, allowed, forbidden,
  conflicted, broken, is_allowed, is_conflicted, check_and_decrement, is_pod_recorded_in_pub, read,
  attempt, retry_on_conflict,
}
use kruise.Budget.Admission.Decrement.{
  one_less, recorded, recorded_status, IsTaken, decremented, budget_step,
}

-- The documented behaviour of a write: it succeeds only if the object is still at the version that
-- was read, and then it stores the status that is written.
pub record IsOptimistic (write : Pub → Pub → UpdateResult) : Type 0 where
  pub same_version :
      (stored p q : Pub) → write stored p ≡ updated q → p.resource_version ≡ stored.resource_version
  pub stores : (stored p q : Pub) → write stored p ≡ updated q → q.status ≡ p.status

-- One attempt of a request.
pub record Event : Type 0 where
  pub request : Request
  pub refresh : Bool
  pub given : Pub
  pub round : Round

module _ (int64_of : String → ℤ) (write : Pub → Pub → UpdateResult)
    (optimistic : IsOptimistic write) where
  abbrev pub run_attempt : Event → Pub → Pub × Outcome
  run_attempt e stored = attempt int64_of write e.request e.refresh e.given e.round stored

  abbrev pub admits : Event → Pub → Bool
  admits e stored = not e.request.dry_run && is_allowed (run_attempt e stored).1

  -- The object after the events, and the pods that they admit.
  abbrev pub after : List Event → Pub → Pub
  after [] stored = stored
  after (e ∷ es) stored = after es (run_attempt e stored).0

  abbrev pub admitted : List Event → Pub → ℕ
  admitted [] stored = 0
  admitted (e ∷ es) stored =
      let rest = admitted es (run_attempt e stored).0 in if admits e stored then 1 + rest else rest

  -- Each event reads a copy that was once stored: at the version that is stored now, it is the
  -- object that is stored now.
  abbrev pub AreCopies : List Event → Pub → Type 0
  AreCopies [] stored = Unit
  AreCopies (e ∷ es) stored =
      ((p : Pub)
        → read int64_of write e.refresh e.given e.round ≡ some p
        → p.resource_version ≡ stored.resource_version
        → p ≡ stored)
      × AreCopies es (run_attempt e stored).0

  -- An admission finds a positive allowance in the object as it is stored, and takes one off it;
  -- anything else leaves the status alone.
  pub record IsStep (name : String) (dry_run : Bool) (stored : Pub) (result : Pub × Outcome)
      : Type 0 where
    pub kept : not dry_run && is_allowed result.1 ≡ false → result.0.status ≡ stored.status
    pub positive :
        not dry_run && is_allowed result.1 ≡ true → pos 0 <ℤ stored.status.unavailable_allowed
    pub only :
        not dry_run && is_allowed result.1 ≡ true
        → (j : String)
        → is_pod_recorded_in_pub j result.0 ≡ (str_eq name j || is_pod_recorded_in_pub j stored)
    pub less :
        not dry_run && is_allowed result.1 ≡ true
        → result.0.status.unavailable_allowed ≡ wrap32 (stored.status.unavailable_allowed -ℤ pos 1)

  IsStep-none :
      (name : String) (d : Bool) (stored : Pub) (o : Outcome)
      → not d && is_allowed o ≡ false
      → IsStep name d stored (stored, o)
  IsStep-none name d stored o h = record {
    only = λ k j. ground arith;
    kept = λ k. refl;
    positive = λ k. ground arith;
    less = λ k. ground arith;
  }

  written-IsStep :
      (name : String) (stored p q : Pub) (answer : UpdateResult)
      → write stored q ≡ answer
      → IsTaken name p q
      → (p.resource_version ≡ stored.resource_version → p ≡ stored)
      → IsStep name false stored (written int64_of write stored answer)
  written-IsStep name stored p q (updated next) e t copy =
      let version = optimistic.same_version stored q next e in
      let same : p ≡ stored = copy (sym t.version ∙ version) in
      let status : next.status ≡ q.status = optimistic.stores stored q next e in
      record {
        only = λ h j. rw (recorded_status j q next status, ← same) (t.only j);
        kept = λ h. ground arith;
        positive = λ h. rw (← same) t.positive;
        less = λ h. ap (λ (s : Status). s.unavailable_allowed) status ∙ rw (← same) t.less;
      }
  written-IsStep name stored p q conflict e t copy = IsStep-none name false stored conflicted refl
  written-IsStep name stored p q failed e t copy = IsStep-none name false stored broken refl

  pub attempt-IsStep :
      (e : Event) (stored : Pub)
      → ((p : Pub)
          → read int64_of write e.refresh e.given e.round ≡ some p
          → p.resource_version ≡ stored.resource_version
          → p ≡ stored)
      → IsStep e.request.pod_name e.request.dry_run stored (run_attempt e stored)
  unfolding attempt
  attempt-IsStep e stored copy =
      elim (Option-cases (read int64_of write e.refresh e.given e.round)) [
        | inl bad ↦
            rw bad (IsStep-none e.request.pod_name e.request.dry_run stored broken (ground arith))
        | inr (p, good) ↦
            elim (Option-cases
              (check_and_decrement e.request.pod_name e.round.now e.request.operation p)) [
                | inl full ↦
                    rw (good, full)
                      (IsStep-none e.request.pod_name e.request.dry_run stored forbidden
                        (ground arith))
                | inr (q, free) ↦ elim (Bool-cases e.request.dry_run) [
                  | inl dry ↦
                      rw (good, free, dry) (IsStep-none e.request.pod_name true stored allowed refl)
                  | inr wet ↦
                      rw (good, free, wet)
                        (written-IsStep e.request.pod_name stored p q _ refl
                          (decremented _ _ _ p q free) (copy p good))
                ]
              ]
      ]

  -- Whatever attempts of whatever requests follow each other, each on a copy that was once stored:
  -- the allowance that is left and the pods that were admitted add up to the allowance before, and
  -- if any pod was admitted, what is left is not negative. So no more pods are admitted than were
  -- allowed.
  pub run-quota :
      (es : List Event) (stored : Pub)
      → IsInt32 stored.status.unavailable_allowed
      → AreCopies es stored
      → ((after es stored).status.unavailable_allowed +ℤ pos (admitted es stored)
          ≡ stored.status.unavailable_allowed)
        × ((admitted es stored ≡ 0) ⊎ (pos 0 ≤ℤ (after es stored).status.unavailable_allowed))
  run-quota [] stored i c = (eq_of_parts _ _ (omega int_laws), inl refl)
  run-quota (e ∷ es) stored i c =
      let step = attempt-IsStep e stored c.0 in
      elim (Bool-cases (admits e stored)) [
        | inr refused ↦
            let same = ap (λ (s : Status). s.unavailable_allowed) (step.kept refused) in
            let rest = run-quota es (run_attempt e stored).0 (rw same i) c.1 in
            rw refused (rest.0 ∙ same, rest.1)
        | inl granted ↦
            let a = stored.status.unavailable_allowed in
            let h = step.positive granted in
            let less = step.less granted ∙ one_less a h i in
            let small : IsInt32 (a -ℤ pos 1) =
              omega (int_laws, i.above, i.below, parts_apart a, parts_apart (a -ℤ pos 1)) in
            let rest = run-quota es (run_attempt e stored).0 (rw less small) c.1 in
            rw granted (budget_step a _ _ (admitted es (run_attempt e stored).0) h less rest)
      ]

  abbrev IsRecorded : String → Pub × Outcome → Type 0
  IsRecorded name result = is_allowed result.1 ≡ true → is_pod_recorded_in_pub name result.0 ≡ true

  written-IsRecorded :
      (name : String) (stored q : Pub) (answer : UpdateResult)
      → write stored q ≡ answer
      → is_pod_recorded_in_pub name q ≡ true
      → IsRecorded name (written int64_of write stored answer)
  unfolding is_pod_recorded_in_pub
  written-IsRecorded name stored q (updated next) e h =
      λ k. rw (optimistic.stores stored q next e) h
  written-IsRecorded name stored q conflict e h = λ k. ground arith
  written-IsRecorded name stored q failed e h = λ k. ground arith

  attempt-IsRecorded :
      (r : Request) (refresh : Bool) (given : Pub) (round : Round) (stored : Pub)
      → r.dry_run ≡ false
      → IsRecorded r.pod_name (attempt int64_of write r refresh given round stored)
  unfolding attempt
  attempt-IsRecorded r refresh given round stored wet =
      elim (Option-cases (read int64_of write refresh given round)) [
        | inl bad ↦ rw bad (λ k. ground arith)
        | inr (p, good) ↦
            elim (Option-cases (check_and_decrement r.pod_name round.now r.operation p)) [
              | inl full ↦ rw (good, full) (λ k. ground arith)
              | inr (q, free) ↦
                  rw (good, free, wet)
                    (written-IsRecorded r.pod_name stored q _ refl (recorded _ _ _ p q free))
            ]
      ]

  -- A pod that a request admits, other than in a dry run, is recorded in the object that is stored
  -- after it, whatever the copies that its attempts read and whatever others wrote before each of
  -- them: the controller will find it there.
  pub retry-recorded :
      (steps : ℕ) (r : Request) (refresh : Bool) (given : Pub) (rounds : ℕ → Round) (stored : Pub)
      → r.dry_run ≡ false
      → is_allowed (retry_on_conflict int64_of write steps r refresh given rounds stored).1 ≡ true
      → is_pod_recorded_in_pub r.pod_name
          (retry_on_conflict int64_of write steps r refresh given rounds stored).0
        ≡ true
  unfolding retry_on_conflict
  retry-recorded zero r refresh given rounds stored d h = ground arith
  retry-recorded (suc n) r refresh given rounds stored d h =
      let s = (rounds n).others stored in
      let first = attempt int64_of write r refresh given (rounds n) s in
      elim (Bool-cases (is_conflicted first.1)) [
        | inl again ↦ rw again (retry-recorded n r true given rounds first.0 d (simp again at h))
        | inr done ↦ rw done (attempt-IsRecorded r refresh given (rounds n) s d (simp done at h))
      ]
