-- ===== src/Budget/Recount/Available.antt =====
-- The promise of a budget: however many requests follow a recount, enough pods are left alone.
use kruise.Prelude.{
  ℕ, ◌+◌, ◌≤◌, ◌≡◌, ◌≢◌, refl, sym, ap, ◌∙◌, inl, inr, arith, String, str_eq, str_eq_iff, Bool,
  ◌&&◌, ◌||◌, not, Bool-cases, is_some, List, [], ◌∷◌, if◌then◌else◌, count, All,
}
use mathlib.Core.Path.{subst}
use kruise.Prelude.Int.{
  ℤ, pos, pos_part, neg_part, ◌+ℤ◌, ◌-ℤ◌, ◌≤ℤ◌, leb_ℤ, wrap32, wrap32_id, IsInt32, int_laws,
  eq_of_parts, -ℤ_parts, parts_apart,
}
use kruise.Prelude.Assoc.{Assoc, Names, has, add, has-add, lookup}
use kruise.Budget.Types.{Pub, Status}
use kruise.Budget.Admission.{is_allowed, Outcome, UpdateResult, is_pod_recorded_in_pub}
use kruise.Budget.Admission.Decrement.{one_less}
use kruise.Budget.Admission.Quota.{IsOptimistic, Event, after, AreCopies, IsStep, attempt-IsStep}
use kruise.Budget.Recount.{
  BudgetPod, add_keys, count_from, count_available_pods, updated_status, sync_status,
}

-- The pods that are counted, if `f` tells the recorded names.
abbrev pub stays : (String → Bool) → BudgetPod → Bool
stays f p = p.is_active && (not (f p.name) && (p.is_state_consistent && p.is_ready))

has-add_keys :
    (j : String) (m : Assoc ℕ) (names : Names)
    → has j (add_keys m names) ≡ (is_some (lookup j m) || has j names)
has-add_keys j [] names = refl
has-add_keys j ((k, t) ∷ m) names =
    has-add_keys j m (add k names) ∙ ground (arith, has-add k j names)

count_from-stays :
    (f : String → Bool) (names : Names) (ps : List BudgetPod) (n : ℕ)
    → ((j : String) → has j names ≡ f j)
    → count_from names ps n ≡ n + count (stays f) ps
count_from-stays f names [] n h = omega arith
count_from-stays f names (p ∷ ps) n h = count_from-stays f names ps _ h ∙ ground (arith, h p.name)

-- The pods that are available and not recorded in the budget.
abbrev pub available : List BudgetPod → Pub → ℕ
available pods p = count_available_pods pods p.status.disrupted_pods p.status.unavailable_pods

available-stays :
    (pods : List BudgetPod) (p : Pub)
    → available pods p ≡ count (stays (λ j. is_pod_recorded_in_pub j p)) pods
unfolding count_available_pods is_pod_recorded_in_pub
available-stays pods p =
    count_from-stays (λ j. is_pod_recorded_in_pub j p) _ pods 0
      (λ j.
        has-add_keys j p.status.unavailable_pods _
        ∙ ground (arith, has-add_keys j p.status.disrupted_pods []))
    ∙ omega arith

abbrev pub IsDistinct : List BudgetPod → Type 0
IsDistinct [] = Unit
IsDistinct (p ∷ ps) = All (λ (q : BudgetPod). p.name ≢ q.name) ps × IsDistinct ps

-- Recording the name of no pod of the list changes nothing.
count-others :
    (f g : String → Bool) (name : String) (ps : List BudgetPod)
    → ((j : String) → g j ≡ (str_eq name j || f j))
    → All (λ (q : BudgetPod). name ≢ q.name) ps
    → count (stays g) ps ≡ count (stays f) ps
count-others f g name [] h a = refl
count-others f g name (p ∷ ps) h a =
    ground (arith, count-others f g name ps h a.1, h p.name, str_eq_iff name p.name, a.0)

-- Recording one name takes at most one pod away.
count-one :
    (f g : String → Bool) (name : String) (ps : List BudgetPod)
    → ((j : String) → g j ≡ (str_eq name j || f j))
    → IsDistinct ps
    → count (stays f) ps ≤ count (stays g) ps + 1
count-one f g name [] h d = omega arith
count-one f g name (p ∷ ps) h d = elim (Bool-cases (str_eq name p.name)) [
  | inl here ↦
      let same : p.name ≡ name = ground (arith, str_eq_iff name p.name) in
      let rest : All (λ (q : BudgetPod). name ≢ q.name) ps =
        subst (λ k. All (λ (q : BudgetPod). k ≢ q.name) ps) same d.0 in
      ground (arith, count-others f g name ps h rest)
  | inr elsewhere ↦ ground (arith, count-one f g name ps h d.1, h p.name)
]

-- The same for two states of the budget.
available-one :
    (name : String) (pods : List BudgetPod) (p q : Pub)
    → ((j : String) → is_pod_recorded_in_pub j q ≡ (str_eq name j || is_pod_recorded_in_pub j p))
    → IsDistinct pods
    → available pods p ≤ available pods q + 1
available-one name pods p q h d =
    rw (available-stays pods p, available-stays pods q) (count-one _ _ name pods h d)

available-status :
    (pods : List BudgetPod) (p q : Pub) → q.status ≡ p.status → available pods q ≡ available pods p
available-status pods p q e =
    ap (λ (s : Status). count_available_pods pods s.disrupted_pods s.unavailable_pods) e

allowed_exact :
    (avail desired : ℤ)
    → pos 0 ≤ℤ desired
    → desired ≤ℤ avail
    → IsInt32 avail
    → (if leb_ℤ (wrap32 (avail -ℤ desired)) (pos 0) then pos 0 else wrap32 (avail -ℤ desired))
      ≡ avail -ℤ desired
allowed_exact avail desired h le i =
    let fits : IsInt32 (avail -ℤ desired) =
      omega (int_laws, i.below, parts_apart (avail -ℤ desired), parts_apart avail) in
    rw (wrap32_id (avail -ℤ desired) fits) (elim (Bool-cases (leb_ℤ (avail -ℤ desired) (pos 0))) [
      | inl low ↦ rw low (eq_of_parts _ _ (ground (arith, -ℤ_parts avail desired)))
      | inr high ↦ rw high refl
    ])

module _ (int64_of : String → ℤ) (write : Pub → Pub → UpdateResult)
    (optimistic : IsOptimistic write) (pods : List BudgetPod) (distinct : IsDistinct pods)
    (desired : ℤ) where
  -- The allowance never exceeds what is available above the desired number.
  record IsCovered (p : Pub) : Type 0 where
    nonneg : pos 0 ≤ℤ p.status.unavailable_allowed
    small : IsInt32 p.status.unavailable_allowed
    covered : desired +ℤ p.status.unavailable_allowed ≤ℤ pos (available pods p)

  step-IsCovered :
      (name : String) (dry : Bool) (stored : Pub) (result : Pub × Outcome)
      → IsStep int64_of write optimistic name dry stored result
      → IsCovered stored
      → IsCovered result.0
  step-IsCovered name dry stored result step c =
      let a = stored.status.unavailable_allowed in
      elim (Bool-cases (not dry && is_allowed result.1)) [
        | inr refused ↦
            let e = step.kept refused in
            let same = ap (λ (s : Status). s.unavailable_allowed) e in
            record {
              nonneg = rw same c.nonneg;
              small = rw same c.small;
              covered = rw (same, available-status pods stored result.0 e) c.covered;
            }
        | inl granted ↦
            let h = step.positive granted in
            let less = step.less granted ∙ one_less a h c.small in
            let one = available-one name pods stored result.0 (step.only granted) distinct in
            record {
              nonneg = omega (int_laws, h, ap pos_part less, ap neg_part less);
              small = rw less (
                  omega (
                    int_laws,
                    h,
                    c.small.above,
                    c.small.below,
                    parts_apart a,
                    parts_apart (a -ℤ pos 1),
                  ));
              covered = omega (int_laws, one, c.covered, ap pos_part less, ap neg_part less);
            }
      ]

  after-IsCovered :
      (es : List Event) (stored : Pub)
      → AreCopies int64_of write optimistic es stored
      → IsCovered stored
      → IsCovered (after int64_of write optimistic es stored)
  after-IsCovered [] stored copies c = c
  after-IsCovered (e ∷ es) stored copies c = after-IsCovered es _ copies.1 (
      step-IsCovered e.request.pod_name e.request.dry_run stored _
        (attempt-IsStep int64_of write optimistic e stored copies.0) c)

  sync-IsCovered :
      (expected : ℤ) (generation now : ℕ) (s : Status) (stored : Pub)
      → stored.status ≡ sync_status pods desired expected generation now s
      → pos 0 ≤ℤ desired
      → desired ≤ℤ pos (available pods stored)
      → IsInt32 (pos (available pods stored))
      → IsCovered stored
  unfolding sync_status updated_status
  sync-IsCovered expected generation now s stored e h le i =
      let same =
        ap (λ (t : Status). count_available_pods pods t.disrupted_pods t.unavailable_pods) e in
      let exact : stored.status.unavailable_allowed ≡ pos (available pods stored) -ℤ desired =
        ap (λ (t : Status). t.unavailable_allowed) e
        ∙ allowed_exact _ desired h (rw (← same) le) (rw (← same) i)
        ∙ ap (λ n. pos n -ℤ desired) (sym same) in
      record {
        nonneg = omega (int_laws, le, ap pos_part exact, ap neg_part exact);
        small = rw exact (
            omega (
              int_laws,
              h,
              i.below,
              parts_apart desired,
              parts_apart (pos (available pods stored) -ℤ desired),
            ));
        covered = omega (int_laws, ap pos_part exact, ap neg_part exact);
      }

  -- Let a sync have written the status, with the desired number of pods available that are not
  -- recorded as going away. Then, whatever attempts of whatever requests follow, each on a copy
  -- that was once stored, and whichever of them are admitted: the desired number of the same pods,
  -- whose names differ, is still available and not recorded as going away.
  pub sync-keeps-available :
      (expected : ℤ) (generation now : ℕ) (s : Status) (stored : Pub) (es : List Event)
      → stored.status ≡ sync_status pods desired expected generation now s
      → pos 0 ≤ℤ desired
      → desired ≤ℤ pos (available pods stored)
      → IsInt32 (pos (available pods stored))
      → AreCopies int64_of write optimistic es stored
      → desired ≤ℤ pos (available pods (after int64_of write optimistic es stored))
  sync-keeps-available expected generation now s stored es e h le i copies =
      let c =
        after-IsCovered es stored copies
          (sync-IsCovered expected generation now s stored e h le i) in
      omega (int_laws, c.nonneg, c.covered)
