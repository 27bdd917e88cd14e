-- ===== src/Budget/Admission/Decrement.antt =====
-- What `checkAndDecrement` takes off the allowance, and records.
use kruise.Prelude.{
  str_eq, ◌||◌, ℕ, ◌+◌, ◌≡◌, refl, ap, ◌⊎◌, inr, arith, String, str_eq_refl, true, some,
}
use kruise.Prelude.Int.{
  ℤ, pos, pos_part, neg_part, ◌+ℤ◌, ◌-ℤ◌, ◌≤ℤ◌, ◌<ℤ◌, wrap32, wrap32_id, IsInt32, int_laws,
  eq_of_parts, parts_apart,
}
use kruise.Prelude.Assoc.{lookup-insert}
use kruise.Budget.Types.{Pub, Operation, update, delete, evict}
use kruise.Budget.Admission.{check_and_decrement, is_pod_recorded_in_pub}

pub one_less : (a : ℤ) → pos 0 <ℤ a → IsInt32 a → wrap32 (a -ℤ pos 1) ≡ a -ℤ pos 1
one_less a h i =
    wrap32_id _ (omega (int_laws, i.below, i.above, parts_apart a, parts_apart (a -ℤ pos 1)))

pub recorded :
    (pod_name : String) (now : ℕ) (operation : Operation) (p q : Pub)
    → check_and_decrement pod_name now operation p ≡ some q
    → is_pod_recorded_in_pub pod_name q ≡ true
unfolding check_and_decrement is_pod_recorded_in_pub
recorded pod_name now update p q e =
    ground
      (arith, lookup-insert pod_name pod_name now p.status.unavailable_pods, str_eq_refl pod_name)
recorded pod_name now delete p q e =
    ground
      (arith, lookup-insert pod_name pod_name now p.status.disrupted_pods, str_eq_refl pod_name)
recorded pod_name now evict p q e =
    ground
      (arith, lookup-insert pod_name pod_name now p.status.disrupted_pods, str_eq_refl pod_name)

pub recorded_status :
    (j : String) (p q : Pub)
    → q.status ≡ p.status
    → is_pod_recorded_in_pub j q ≡ is_pod_recorded_in_pub j p
unfolding is_pod_recorded_in_pub
recorded_status j p q e = rw e refl

-- What is written takes one off a positive allowance.
pub record IsTaken (name : String) (p q : Pub) : Type 0 where
  pub positive : pos 0 <ℤ p.status.unavailable_allowed
  pub less : q.status.unavailable_allowed ≡ wrap32 (p.status.unavailable_allowed -ℤ pos 1)
  pub version : q.resource_version ≡ p.resource_version
  pub only :
      (j : String) → is_pod_recorded_in_pub j q ≡ (str_eq name j || is_pod_recorded_in_pub j p)

pub decremented :
    (pod_name : String) (now : ℕ) (operation : Operation) (p q : Pub)
    → check_and_decrement pod_name now operation p ≡ some q
    → IsTaken pod_name p q
unfolding check_and_decrement is_pod_recorded_in_pub
decremented pod_name now update p q e = record {
  positive = ground arith;
  less = ground arith;
  version = ground arith;
  only = λ j. ground (arith, lookup-insert pod_name j now p.status.unavailable_pods);
}
decremented pod_name now delete p q e = record {
  positive = ground arith;
  less = ground arith;
  version = ground arith;
  only = λ j. ground (arith, lookup-insert pod_name j now p.status.disrupted_pods);
}
decremented pod_name now evict p q e = record {
  positive = ground arith;
  less = ground arith;
  version = ground arith;
  only = λ j. ground (arith, lookup-insert pod_name j now p.status.disrupted_pods);
}

pub budget_step :
    (before next last : ℤ) (taken : ℕ)
    → pos 0 <ℤ before
    → next ≡ before -ℤ pos 1
    → (last +ℤ pos taken ≡ next) × ((taken ≡ 0) ⊎ (pos 0 ≤ℤ last))
    → (last +ℤ pos (1 + taken) ≡ before) × ((1 + taken ≡ 0) ⊎ (pos 0 ≤ℤ last))
budget_step before next last taken h less rest = (
  eq_of_parts _ _ (
      omega (int_laws, ap pos_part less, ap neg_part less, ap pos_part rest.0, ap neg_part rest.0)),
  inr (
      omega (
        int_laws,
        ap pos_part less,
        ap neg_part less,
        ap pos_part rest.0,
        ap neg_part rest.0,
        rest.1,
      )),
)
