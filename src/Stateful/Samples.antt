-- ===== src/Stateful/Samples.antt =====
-- A small StatefulSet and its pods for the tests.
use kruise.Prelude.{String, Bool, true, false, Option, none, some, List, [], ◌∷◌}
use kruise.Prelude.Int.{ℤ, pos}
use kruise.Prelude.Decimal.{codes}
use kruise.Util.Tools.{IntOrString, int, str}
use kruise.CloneSet.Writes.{Api}
use kruise.Stateful.Types.{Pod, World, StatefulSet, RollingUpdate, Status, PodUpdatePolicy, stored}
use kruise.Stateful.Pass.{Pass, Run}
use kruise.Stateful.Tally.{fresh_status}

abbrev value_of : IntOrString → ℤ → Bool → Option ℤ
value_of (int n) total up = some n
value_of (str s) total up = none

abbrev api : Api
api = record {
  accepts_pod = λ log action name. true;
  accepts_pvc = λ log action name. true;
  patch_state = λ p state. some (record { uid = p.uid; resource_version = "7" });
  add_not_ready_key = λ p key. true;
  remove_not_ready_key = λ p key. true;
}

-- Everything is accepted.
abbrev pub world : World
world = record {
  now = 100;
  auto_delete_pvc = false;
  preparing_update_as_update = false;
  get_value_from_int_or_percent = value_of;
  text = λ name. "new";
  get_pod_from_template = λ revision. record { name = ""; uid = ""; labels = []; finalizers = [] };
  sort_ascending_ordinal = λ pods. pods;
  sort_by_priority = λ strategy replicas indexes. indexes;
  api = api;
  patch_with_hook = λ pod state hook. none;
  accepts_creation = λ log pod. true;
  accepts_deletion = λ log pod. true;
  accepts_update = λ log pod. true;
  accepts_claims = λ log pod. true;
  pod_claim_is_stale = λ pod. some false;
  claims_match_retention_policy = λ pod. some true;
  storage_matches = λ pod. true;
  refresh = λ log pod. some (pos 0);
  is_update_completed = λ pod. true;
  can_update_in_place = λ old new. false;
  update_in_place = λ log pod. stored (pos 0);
}

abbrev pub rolling : RollingUpdate
rolling = record {
  partition = pos 1;
  max_unavailable = some (int (pos 1));
  pod_update_policy = PodUpdatePolicy.in_place_if_possible;
  paused = false;
  min_ready_seconds = none;
  unordered_update = none;
}

abbrev no_status : Status
no_status = record {
  observed_generation = pos 0;
  current_revision = "old";
  update_revision = "new";
  label_selector = "";
  collision_count = pos 0;
  replicas = pos 0;
  ready_replicas = pos 0;
  available_replicas = pos 0;
  current_replicas = pos 0;
  updated_replicas = pos 0;
  updated_ready_replicas = pos 0;
  updated_available_replicas = pos 0;
  failed = none;
}

-- Three replicas, one after the other, or with `parallel` at once.
abbrev pub set_of : Bool → StatefulSet
set_of parallel = record {
  name = codes "web";
  namespace = codes "ns";
  generation = pos 1;
  deleting = false;
  replicas = pos 3;
  reserve_ordinals = [];
  parallel = parallel;
  scale_max_unavailable = some (int (pos 1));
  is_rolling_update = true;
  rolling_update = some rolling;
  lifecycle = none;
  revision_history_limit = pos 1;
  status = no_status;
}

abbrev pub pass_of : Bool → Pass
pass_of parallel = record {
  world = world;
  set = set_of parallel;
  key = "ns/web";
  current_revision = "old";
  update_revision = "new";
  revisions = "old" ∷ "new" ∷ [];
}

abbrev pub pod : String → String → Bool → Pod
pod name revision ready = record {
  meta = record {
    name = name;
    uid = name;
    labels = ("controller-revision-hash", revision) ∷ [];
    finalizers = [];
  };
  identity = record { name = codes name; namespace = codes "ns"; pod_name_label = codes name };
  phase = "Running";
  terminating = false;
  ready = ready;
  ready_since = some (pos 0);
}

abbrev pub run_with : List (Option Pod) → Option ℤ → Run
run_with replicas budget = record {
  status = fresh_status (pass_of true) "" (pos 0);
  replicas = replicas;
  budget = budget;
  requeue = [];
  expectations = [];
  log = [];
}

-- The second replica is not ready.
abbrev pub replicas : List (Option Pod)
replicas =
    some (pod "web-0" "old" true)
    ∷ some (pod "web-1" "old" false)
    ∷ some (pod "web-2" "old" true)
    ∷ []

abbrev pub condemned : List Pod
condemned = pod "web-3" "old" true ∷ pod "web-4" "old" true ∷ []
