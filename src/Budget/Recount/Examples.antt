-- ===== src/Budget/Recount/Examples.antt =====
-- Three pods, of which two must stay.
use kruise.Prelude.{◌≡◌, refl, sym, ap, arith, String, str_eq_iff, none, some, List, [], ◌∷◌, true}
use kruise.Prelude.Int.{pos, ◌-ℤ◌, ◌≤ℤ◌, wrap32}
use kruise.Prelude.Assoc.{lookup}
use kruise.Budget.Types.{Status}
use kruise.Budget.Admission.{attempt, read, check_and_decrement}
use kruise.Budget.Admission.Quota.{Event, after, AreCopies}
use kruise.Budget.Samples.{int64_of, write, write-IsOptimistic, budget, event, or_budget}
use kruise.Budget.Recount.{
  BudgetPod, count_available_pods, build_disrupted_and_unavailable_pods, updated_status,
  sync_status,
}
use kruise.Budget.Recount.Available.{available, IsDistinct, sync-keeps-available}
use kruise.Budget.Recount.Kept.{build-keeps}

abbrev pod : String → BudgetPod
pod name = record { name = name; is_active = true; is_state_consistent = true; is_ready = true }

abbrev pods : List BudgetPod
pods = pod "a" ∷ pod "b" ∷ pod "c" ∷ []

differ : IsDistinct pods
differ = (
  (ground (arith, str_eq_iff "a" "b"), (ground (arith, str_eq_iff "a" "c"), tt)),
  ((ground (arith, str_eq_iff "b" "c"), tt), (tt, tt)),
)

-- The status before, with the record of a pod that was never deleted.
abbrev before : Status
before = record budget.status { disrupted_pods = ("a", 3) ∷ [] }

synced : budget.status ≡ sync_status pods (pos 2) (pos 3) 1 30000000000 before
unfolding sync_status updated_status build_disrupted_and_unavailable_pods count_available_pods
    wrap32 ◌-ℤ◌
synced = refl

three : available pods budget ≡ 3
unfolding count_available_pods
three = refl

abbrev events : List Event
events = event "a" ∷ []

copies : AreCopies int64_of write write-IsOptimistic events budget
unfolding attempt read check_and_decrement wrap32 ◌-ℤ◌
copies = (λ p e v. sym (ap or_budget e), tt)

sync-keeps-available_example :
    pos 2 ≤ℤ pos (available pods (after int64_of write write-IsOptimistic events budget))
sync-keeps-available_example =
    sync-keeps-available int64_of write write-IsOptimistic pods differ (pos 2) (pos 3) 1 30000000000
      before budget events synced (omega arith) (omega (arith, three)) (omega (arith, three)) copies

build-keeps_example :
    (lookup "a" (build_disrupted_and_unavailable_pods pods before 20).disrupted_pods ≡ some 3)
    × (lookup "a" (build_disrupted_and_unavailable_pods pods before 20).unavailable_pods ≡ none)
build-keeps_example = build-keeps pods before 20 "a"
