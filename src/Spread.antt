-- ===== src/Spread.antt =====
-- pkg/util/workloadspread/workloadspread.go: into which subset of a WorkloadSpread a new pod goes, and
-- what is noted of a pod that is deleted.
pub mod Found
pub mod Quota
pub mod Status
mod Examples
use kruise.Prelude.{
  String, str_eq, Bool, true, false, ◌&&◌, ◌||◌, not, Option, none, some, List, [], ◌∷◌,
  if◌then◌else◌, is_some, map,
}
use kruise.Prelude.Int.{ℤ, pos, negsuc, ◌+ℤ◌, ◌-ℤ◌, ltb_ℤ, leb_ℤ, eqb_ℤ, wrap32}
use kruise.Prelude.Assoc.{Assoc, lookup, insert}
use kruise.Util.Tools.{IntOrString}

-- A nil map is an empty one. -1 replicas are missing where there is no limit.
pub record SubsetStatus : Type 0 where
  pub name : String
  pub replicas : ℤ
  -- The condition SubsetSchedulable, if it is there.
  pub schedulable : Option Bool
  pub missing_replicas : ℤ
  pub creating_pods : Assoc ℤ
  pub deleting_pods : Assoc ℤ

pub record Subset : Type 0 where
  pub name : String
  pub max_replicas : Option IntOrString

pub data Operation : Type 0 where
  create : Operation
  delete : Operation
  evict : Operation

-- What is asked of the subsets: the name of the pod, which may be empty at its creation, the subset
-- that is noted on it, and a new UID.
pub record Request : Type 0 where
  pub operation : Operation
  pub pod_name : String
  pub subset : String
  pub uid : String
  pub now : ℤ

-- `initializedSubsetStatuses`, once the replicas of the workload are read: `value` is
-- `GetScaledValueFromIntOrPercent`, which is 0 on an error.
abbrev initial : (IntOrString → ℤ → ℤ) → ℤ → Subset → SubsetStatus
initial value replicas s = record {
  name = s.name;
  replicas = pos 0;
  schedulable = none;
  missing_replicas = elim s.max_replicas [ none ↦ negsuc 0 | some v ↦ value v replicas ];
  creating_pods = [];
  deleting_pods = [];
}

unfoldable pub initialized_subset_statuses :
    (IntOrString → ℤ → ℤ) → ℤ → List Subset → List SubsetStatus
initialized_subset_statuses value replicas subsets = map (initial value replicas) subsets

-- The first subset in which the pod is recorded.
unfoldable pub is_pod_recorded_in_subset : List SubsetStatus → String → Option SubsetStatus
is_pod_recorded_in_subset [] pod_name = none
is_pod_recorded_in_subset (s ∷ ss) pod_name =
    if is_some (lookup pod_name s.creating_pods) || is_some (lookup pod_name s.deleting_pods)
    then some s
    else is_pod_recorded_in_subset ss pod_name

abbrev pub is_limited : SubsetStatus → Bool
is_limited s = not (eqb_ℤ s.missing_replicas (negsuc 0))

abbrev can_schedule : Option Bool → Bool
can_schedule none = true
can_schedule (some b) = b

abbrev pub is_suitable : SubsetStatus → Bool
is_suitable s =
    can_schedule s.schedulable && (ltb_ℤ (pos 0) s.missing_replicas || not (is_limited s))

unfoldable pub get_suitable_subset : List SubsetStatus → Option SubsetStatus
get_suitable_subset [] = none
get_suitable_subset (s ∷ ss) = if is_suitable s then some s else get_suitable_subset ss

unfoldable pub get_specific_subset : List SubsetStatus → String → Option SubsetStatus
get_specific_subset [] name = none
get_specific_subset (s ∷ ss) name =
    if str_eq name s.name then some s else get_specific_subset ss name

-- The first subset of a name is overwritten.
unfoldable pub write_subset : SubsetStatus → List SubsetStatus → List SubsetStatus
write_subset n [] = []
write_subset n (s ∷ ss) = if str_eq s.name n.name then n ∷ ss else s ∷ write_subset n ss

-- Whether the statuses changed, the subset, the UID, and the statuses. The names of the subsets of a
-- WorkloadSpread differ, so that the one that is overwritten is the one that was chosen.
pub record Updated : Type 0 where
  pub changed : Bool
  pub subset : Option SubsetStatus
  pub generated_uid : String
  pub statuses : List SubsetStatus

abbrev unchanged : List SubsetStatus → Option SubsetStatus → Updated
unchanged ss s = record { changed = false; subset = s; generated_uid = ""; statuses = ss }

abbrev written : List SubsetStatus → String → SubsetStatus → Updated
written ss uid n = record {
  changed = true;
  subset = some n;
  generated_uid = uid;
  statuses = write_subset n ss;
}

-- The pod is noted as being created, and one replica less is missing. The number is an int32.
abbrev pub creates_one : String → ℤ → SubsetStatus → SubsetStatus
creates_one id now s = record s {
  creating_pods = insert id now s.creating_pods;
  missing_replicas =
      if ltb_ℤ (pos 0) s.missing_replicas
      then wrap32 (s.missing_replicas -ℤ pos 1)
      else s.missing_replicas;
}

abbrev pub deletes_one : String → ℤ → SubsetStatus → SubsetStatus
deletes_one name now s = record s {
  deleting_pods = insert name now s.deleting_pods;
  missing_replicas =
      if leb_ℤ (pos 0) s.missing_replicas
      then wrap32 (s.missing_replicas +ℤ pos 1)
      else s.missing_replicas;
}

abbrev created_in : Request → List SubsetStatus → Option SubsetStatus → Updated
created_in q ss none = unchanged ss none
created_in q ss (some s) =
    let id = if str_eq q.pod_name "" then q.uid else q.pod_name in
    if is_limited s
    then written ss (if str_eq q.pod_name "" then q.uid else "") (creates_one id q.now s)
    else unchanged ss (some s)

abbrev recorded : Request → List SubsetStatus → Option SubsetStatus
recorded q ss = if str_eq q.pod_name "" then none else is_pod_recorded_in_subset ss q.pod_name

abbrev create_in : Request → List SubsetStatus → Option SubsetStatus → Updated
create_in q ss none = created_in q ss (get_suitable_subset ss)
create_in q ss (some s) = unchanged ss (some s)

abbrev deleted_in : Request → List SubsetStatus → Option SubsetStatus → Updated
deleted_in q ss none = unchanged ss none
deleted_in q ss (some s) =
    if is_limited s then written ss "" (deletes_one q.pod_name q.now s) else unchanged ss (some s)

abbrev delete_in : Request → List SubsetStatus → Option SubsetStatus → Updated
delete_in q ss none = deleted_in q ss (get_specific_subset ss q.subset)
delete_in q ss (some s) = unchanged ss none

abbrev by_operation : Request → List SubsetStatus → Operation → Updated
by_operation q ss create = create_in q ss (recorded q ss)
by_operation q ss delete = delete_in q ss (is_pod_recorded_in_subset ss q.pod_name)
by_operation q ss evict = delete_in q ss (is_pod_recorded_in_subset ss q.pod_name)

-- `updateSubsetForPod` from its switch on, on the statuses of the version of the pod, which are there.
unfoldable pub update_subset_for_pod : Request → List SubsetStatus → Updated
unfolding is_pod_recorded_in_subset get_suitable_subset get_specific_subset write_subset
update_subset_for_pod q ss = by_operation q ss q.operation
