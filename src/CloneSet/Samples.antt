-- ===== src/CloneSet/Samples.antt =====
-- Small CloneSets and pods for the tests.
use kruise.Prelude.{String, str_eq, Bool, true, false, not, none, some, List, [], ◌∷◌}
use kruise.Prelude.Int.{ℤ, pos}
use kruise.Util.Tools.{IntOrString, int, str}
use kruise.Util.LifecycleState
use kruise.Util.Pods.{Pod}
use kruise.CloneSet.Types.{CloneSet, Env}
use kruise.CloneSet.Writes.{Api, Written}
use kruise.CloneSet.NewPods.{Template}
use kruise.CloneSet.Scaling.{Sync}
use kruise.CloneSet.Updating.{Update, in_place_if_possible, stored}

abbrev value_of : IntOrString → ℤ → Bool → ℤ
value_of (int n) total up = n
value_of (str s) total up = pos 1

-- Pods are ready, and "20%" of anything is one pod.
abbrev pub env : Env
env = record {
  is_pod_update_ready = λ p s. true;
  scale = λ s total up. none;
  get_value_from_int_or_percent = value_of;
  clone_set_partition_rollback = false;
  preparing_update_as_update = false;
  scaling_exclude_preparing_delete = false;
}

abbrev pub pod : String → String → String → Pod
pod name hash state = record {
  name = name;
  uid = name;
  labels = ("controller-revision-hash", hash) ∷ (LifecycleState.key, state) ∷ [];
  finalizers = [];
}

-- Three replicas, of which one stays at the old revision.
abbrev pub clone_set : CloneSet
clone_set = record {
  labels = [];
  replicas = pos 3;
  scale_strategy = record { pods_to_delete = []; max_unavailable = none };
  update_strategy = record {
    partition = some (int (pos 1));
    max_unavailable = none;
    max_surge = some (int (pos 1));
    paused = false;
  };
  min_ready_seconds = pos 0;
  lifecycle = none;
}

abbrev pub settled_pods : List Pod
settled_pods =
    pod "a" "cs-new" LifecycleState.normal
    ∷ pod "b" "cs-old" LifecycleState.normal
    ∷ pod "c" "cs-new" LifecycleState.normal
    ∷ []

abbrev pub old_pods : List Pod
old_pods =
    pod "a" "cs-old" LifecycleState.normal
    ∷ pod "b" "cs-old" LifecycleState.normal
    ∷ pod "c" "cs-old" LifecycleState.normal
    ∷ pod "d" "cs-old" LifecycleState.preparing_delete
    ∷ []

-- An API server that refuses to touch "b", and knows no version but "7".
abbrev pub api : Api
api = record {
  accepts_pod = λ log action name. not (str_eq name "b");
  accepts_pvc = λ log action name. true;
  patch_state = λ p state. some (record { uid = p.uid; resource_version = "7" });
  add_not_ready_key = λ p key. true;
  remove_not_ready_key = λ p key. true;
}

abbrev pub nothing_written : Written
nothing_written = record { scale = []; versions = []; requeue = []; log = []; changes = [] }

abbrev pub template : Template
template = record { name = "cs"; labels = []; finalizers = []; claims = "data" ∷ [] }

abbrev pub sync : Sync
sync = record {
  api = api;
  env = env;
  key = "ns/cs";
  cs = clone_set;
  current_cs = template;
  update_cs = template;
  current_revision = "cs-old";
  update_revision = "cs-new";
  short_hash = false;
  rand = λ n. "x9k2p";
  fuel = 1;
  sorted = λ names. names;
  rank = λ pods. pods;
}

abbrev pub an_update : Update
an_update = record {
  api = api;
  env = env;
  in_place = record {
    refresh = λ p. some (pos 0);
    is_completed = λ p. true;
    patch_hash = λ p hash. some (record { uid = p.uid; resource_version = "5" });
  };
  key = "ns/cs";
  cs = clone_set;
  update_type = in_place_if_possible;
  current_revision = "cs-old";
  update_revision = "cs-new";
  revisions = "cs-old" ∷ "cs-new" ∷ [];
  grace_period = λ p. "";
  can_update_in_place = λ old target. true;
  update_in_place = λ p target. stored (record { uid = p.uid; resource_version = "6" }) (pos 0);
  patch_with_hook = λ p state hook. none;
  patch_specified_delete = λ p. none;
  budget_gate = false;
  budget_allows = λ changes p. some true;
  sort = λ pods is. is;
}
