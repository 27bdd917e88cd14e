-- ===== src/Budget/Admission/Examples.antt =====
-- Two requests on a budget that allows one pod: the second works on an old copy, conflicts, reads
-- again and is forbidden.
use kruise.Prelude.{
  ◌≡◌, refl, sym, ap, ◌∙◌, ◌≢◌, arith, String, str_eq_iff, true, false, Option, some, [], ◌∷◌, ◌⊎◌,
}
use kruise.Prelude.Int.{pos, ◌+ℤ◌, ◌-ℤ◌, ◌≤ℤ◌, wrap32}
use kruise.Budget.Types.{Pub}
use kruise.Budget.Admission.{
  allowed, is_allowed, check_and_decrement, is_pod_recorded_in_pub, is_need_pub_protection, read,
  attempt, retry_on_conflict, pod_unavailable_budget_validate_pod,
}
use kruise.Budget.Admission.Quota.{after, admitted, AreCopies, run-quota}
use kruise.Budget.Samples.{
  int64_of, write, write-IsOptimistic, budget, request, round, event, or_budget,
}

program : Unit {0}
unfolding attempt read check_and_decrement retry_on_conflict is_pod_recorded_in_pub
    is_need_pub_protection pod_unavailable_budget_validate_pod wrap32 ◌-ℤ◌ ◌+ℤ◌
program = tt

-- The first pod is admitted by the whole check.
one_allowed :
    (pod_unavailable_budget_validate_pod int64_of write
      (request "a")
      (some (some budget))
      (λ n. round)
      budget).1
    ≡ allowed
unfolding program
one_allowed = refl

only_one : admitted int64_of write write-IsOptimistic (event "a" ∷ event "b" ∷ []) budget ≡ 1
unfolding program
only_one = refl

same_pub : (p : Pub) → ◌≡◌ {A = Option Pub} (some budget) (some p) → budget ≡ p
same_pub p e = ap or_budget e

versions_differ : ◌≢◌ {A = String} "v" "vv"
versions_differ = ground (arith, str_eq_iff "v" "vv")

copies : AreCopies int64_of write write-IsOptimistic (event "a" ∷ event "b" ∷ []) budget
unfolding program
copies = (
  λ p e v. sym (same_pub p e),
  (λ p e v. absurd (versions_differ (ap (λ (q : Pub). q.resource_version) (same_pub p e) ∙ v)), tt),
)

run-quota_example :
    ((after int64_of write write-IsOptimistic
          (event "a" ∷ event "b" ∷ [])
          budget).status.unavailable_allowed
        +ℤ pos (admitted int64_of write write-IsOptimistic (event "a" ∷ event "b" ∷ []) budget)
      ≡ pos 1)
    × ((admitted int64_of write write-IsOptimistic (event "a" ∷ event "b" ∷ []) budget ≡ 0)
        ⊎ (pos 0
            ≤ℤ (after int64_of write write-IsOptimistic
                (event "a" ∷ event "b" ∷ [])
                budget).status.unavailable_allowed))
run-quota_example =
    run-quota int64_of write write-IsOptimistic (event "a" ∷ event "b" ∷ []) budget (omega arith)
      copies

admits_a :
    is_allowed (retry_on_conflict int64_of write 4 (request "a") false budget (λ n. round) budget).1
    ≡ true
unfolding program
admits_a = refl
