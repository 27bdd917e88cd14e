-- ===== src/Budget/Samples.antt =====
-- A budget that allows one pod, requests on it, and a server whose versions grow by a letter.
use kruise.Prelude.{
  arith, String, str_eq, str_eq_iff, true, false, Option, none, some, [], if◌then◌else◌,
}
use kruise.Prelude.Int.{ℤ, pos}
use kruise.Budget.Types.{Pub, delete}
use kruise.Budget.Admission.{Request, Round, UpdateResult, updated, conflict}
use kruise.Budget.Admission.Quota.{IsOptimistic, Event}

abbrev pub int64_of : String → ℤ
int64_of version = pos 0

-- Each write appends to the version.
abbrev next_version : String → String
next_version String.[] = "v"
next_version (String.◌∷◌ c s) = String.◌∷◌ c (next_version s)

abbrev pub write : Pub → Pub → UpdateResult
write stored p =
    if str_eq p.resource_version stored.resource_version
    then updated (record p { resource_version = next_version p.resource_version })
    else conflict

pub write-IsOptimistic : IsOptimistic write
write-IsOptimistic = record {
  same_version =
      λ stored p q e. ground (arith, str_eq_iff p.resource_version stored.resource_version);
  stores = λ stored p q e. ground arith;
}

abbrev pub budget : Pub
budget = record {
  resource_version = "v";
  generation = 1;
  protect_operations = none;
  status = record {
    observed_generation = 1;
    disrupted_pods = [];
    unavailable_pods = [];
    unavailable_allowed = pos 1;
    current_available = pos 3;
    desired_available = pos 2;
    total_replicas = pos 3;
  };
}

abbrev pub request : String → Request
request pod_name = record {
  pod_name = pod_name;
  operation = delete;
  dry_run = false;
  no_protection = false;
  is_ready = true;
  is_state_consistent = true;
}

abbrev pub round : Round
round = record { got = none; local_cached = none; informer_cached = none; now = 7; others = λ p. p }

abbrev pub event : String → Event
event pod_name = record {
  request = request pod_name;
  refresh = false;
  given = budget;
  round = round;
}

abbrev pub or_budget : Option Pub → Pub
or_budget none = budget
or_budget (some p) = p
