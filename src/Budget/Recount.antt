-- ===== src/Budget/Recount.antt =====
-- pkg/controller/podunavailablebudget/podunavailablebudget_controller.go: the status is computed
-- anew from the pods. The annotation of the pods and the retries of the write are left out.
pub mod Available
pub mod Kept
mod Examples
use kruise.Prelude.{
  ℕ, ◌+◌, String, Bool, true, false, ◌||◌, ◌&&◌, not, Option, none, some, List, [], ◌∷◌,
  if◌then◌else◌, ltb,
}
use kruise.Prelude.Int.{ℤ, pos, ◌-ℤ◌, ltb_ℤ, leb_ℤ, max_ℤ, wrap32}
use kruise.Prelude.Assoc.{Assoc, Names, has, add, lookup, insert}
use kruise.Util.Tools.{IntOrString, int, str}
use kruise.Budget.Types.{Status}

-- A pod, as `IsPodActive`, `IsPodStateConsistent` and `IsPodReady` see it.
pub record BudgetPod : Type 0 where
  pub name : String
  pub is_active : Bool
  pub is_state_consistent : Bool
  pub is_ready : Bool

abbrev pub add_keys : Assoc ℕ → Names → Names
add_keys [] names = names
add_keys ((name, time) ∷ m) names = add_keys m (add name names)

abbrev pub is_available : Names → BudgetPod → Bool
is_available record_pods p =
    p.is_active && (not (has p.name record_pods) && (p.is_state_consistent && p.is_ready))

abbrev pub count_from : Names → List BudgetPod → ℕ → ℕ
count_from record_pods [] n = n
count_from record_pods (p ∷ ps) n =
    count_from record_pods ps (if is_available record_pods p then n + 1 else n)

unfoldable pub count_available_pods : List BudgetPod → Assoc ℕ → Assoc ℕ → ℕ
count_available_pods pods disrupted_pods unavailable_pods =
    count_from (add_keys unavailable_pods (add_keys disrupted_pods [])) pods 0

pub record Spec : Type 0 where
  pub max_unavailable : Option IntOrString
  pub min_available : Option IntOrString

-- `scaled` is `intstr.GetScaledValueFromIntOrPercent`, and `none` its error.
module _ (scaled : IntOrString → ℤ → Bool → Option ℤ) where
  abbrev below_expected : ℤ → Option ℤ → Option ℤ
  below_expected expected none = none
  below_expected expected (some n) =
      let desired = wrap32 (expected -ℤ wrap32 n) in
      some (if ltb_ℤ desired (pos 0) then pos 0 else desired)

  abbrev as_int32 : Option ℤ → Option ℤ
  as_int32 none = none
  as_int32 (some n) = some (wrap32 n)

  abbrev at_least : ℤ → Option IntOrString → Option ℤ
  at_least expected none = some (pos 0)
  at_least expected (some (int n)) = some n
  at_least expected (some (str s)) = as_int32 (scaled (str s) expected true)

  abbrev desired_for : ℤ → Option IntOrString → Option IntOrString → Option ℤ
  desired_for expected (some m) min_available = below_expected expected (scaled m expected true)
  desired_for expected none min_available = at_least expected min_available

  unfoldable pub get_desired_available_for_pub : Spec → ℤ → Option ℤ
  get_desired_available_for_pub spec expected_count =
      desired_for expected_count spec.max_unavailable spec.min_available

-- 20 seconds, in nanoseconds as every time here; and 10.
abbrev pub deletion_timeout : ℕ
deletion_timeout = 20000000000

abbrev pub updated_delay_check_time : ℕ
updated_delay_check_time = 10000000000

pub record Recorded : Type 0 where
  pub disrupted_pods : Assoc ℕ
  pub unavailable_pods : Assoc ℕ
  pub recheck_time : Option ℕ

abbrev earlier : ℕ → Option ℕ → Option ℕ
earlier time none = some time
earlier time (some t) = if ltb time t then some time else some t

abbrev keep_disrupted : String → ℕ → Option ℕ → Recorded → Recorded
keep_disrupted name current_time none r = r
keep_disrupted name current_time (some time) r =
    if ltb (time + deletion_timeout) current_time then r else record r {
      disrupted_pods = insert name time r.disrupted_pods;
      recheck_time = earlier (time + deletion_timeout) r.recheck_time;
    }

abbrev keep_unavailable : String → ℕ → Option ℕ → Recorded → Recorded
keep_unavailable name current_time none r = r
keep_unavailable name current_time (some time) r =
    if ltb (time + updated_delay_check_time) current_time then r else record r {
      unavailable_pods = insert name time r.unavailable_pods;
      recheck_time = earlier (time + updated_delay_check_time) r.recheck_time;
    }

-- The loop over the pods, on the status before.
abbrev pub build_from : Status → ℕ → List BudgetPod → Recorded → Recorded
build_from s current_time [] r = r
build_from s current_time (p ∷ ps) r = build_from s current_time ps (
    if p.is_active
    then keep_unavailable p.name current_time (lookup p.name s.unavailable_pods)
        (keep_disrupted p.name current_time (lookup p.name s.disrupted_pods) r)
    else r)

unfoldable pub build_disrupted_and_unavailable_pods : List BudgetPod → Status → ℕ → Recorded
build_disrupted_and_unavailable_pods pods s current_time =
    build_from s current_time pods
      (record { disrupted_pods = []; unavailable_pods = []; recheck_time = none })

-- The status that `updatePubStatus` writes.
unfoldable pub updated_status : ℤ → ℤ → ℤ → Recorded → ℕ → Status
updated_status current_available desired_available expected_count r generation =
    let allowed = wrap32 (current_available -ℤ desired_available) in
    record {
      observed_generation = generation;
      disrupted_pods = r.disrupted_pods;
      unavailable_pods = r.unavailable_pods;
      unavailable_allowed = if leb_ℤ allowed (pos 0) then pos 0 else allowed;
      current_available = current_available;
      desired_available = desired_available;
      total_replicas = expected_count;
    }

-- The status that a sync arrives at, from the pods and the status before.
unfoldable pub sync_status : List BudgetPod → ℤ → ℤ → ℕ → ℕ → Status → Status
sync_status pods desired_available expected_count generation current_time s =
    let r = build_disrupted_and_unavailable_pods pods s current_time in
    updated_status (pos (count_available_pods pods r.disrupted_pods r.unavailable_pods))
      desired_available expected_count r generation
