-- ===== src/Spread/Status.antt =====
-- `calculateWorkloadSpreadSubsetStatus` of pkg/controller/workloadspread/
-- workloadspread_controller.go: what a subset is missing, computed anew from its pods.
pub mod Missing
use kruise.Prelude.{
  String, str_eq, Bool, true, false, ◌&&◌, ◌||◌, not, Option, none, some, List, [], ◌∷◌,
  if◌then◌else◌,
}
use kruise.Prelude.Int.{ℤ, pos, negsuc, ◌+ℤ◌, ◌-ℤ◌, ltb_ℤ}
use kruise.Prelude.Assoc.{Assoc, lookup, insert, erase}
use kruise.Util.Requeue.{DurationStore, push}
use kruise.Spread.{SubsetStatus}

-- The UID is that of the annotation, if it has one.
pub record Pod : Type 0 where
  pub name : String
  pub inject_uid : String
  pub active : Bool

-- What the loops change: the status, what is left of the creations that were noted, and the requeue
-- durations.
pub record Counting : Type 0 where
  pub status : SubsetStatus
  pub old_creating : Assoc ℤ
  pub requeue : DurationStore

-- 15 seconds for a deletion, and 30 for a creation.
abbrev pub delete_pod_timeout : ℤ
delete_pod_timeout = pos 15000000000

abbrev pub create_pod_timeout : ℤ
create_pod_timeout = pos 30000000000

abbrev pub less_one : SubsetStatus → SubsetStatus
less_one s = record s {
  missing_replicas =
      if ltb_ℤ (pos 0) s.missing_replicas then s.missing_replicas -ℤ pos 1 else s.missing_replicas;
}

abbrev pub one_more_below : ℤ → SubsetStatus → SubsetStatus
one_more_below max s = record s {
  missing_replicas =
      if ltb_ℤ s.missing_replicas max then s.missing_replicas +ℤ pos 1 else s.missing_replicas;
}

abbrev pub is_over : ℤ → ℤ → Bool
is_over until now = ltb_ℤ until now

-- A pod whose deletion is noted, and is not too long ago, counts as gone.
unfoldable pub count_deletion : String → ℤ → ℤ → Pod → Counting → Option ℤ → Counting
count_deletion key max now pod c none = c
count_deletion key max now pod c (some time) =
    let until = time +ℤ delete_pod_timeout in
    if is_over until now then c else record c {
      status =
          one_more_below max
            (record c.status { deleting_pods = insert pod.name time c.status.deleting_pods });
      requeue = push c.requeue key (until -ℤ now);
    }

abbrev pub count_active : String → ℤ → ℤ → Assoc ℤ → Pod → Counting → Counting
count_active key max now old_deleting pod c =
    let active = record c.status { replicas = c.status.replicas +ℤ pos 1 } in
    count_deletion key max now pod (record c { status = less_one active })
      (lookup pod.name old_deleting)

-- One pod; `old_deleting` are the deletions that were noted.
unfoldable pub count_pod : String → ℤ → ℤ → Assoc ℤ → Pod → Counting → Counting
unfolding count_deletion
count_pod key max now old_deleting pod c =
    let id = if str_eq pod.inject_uid "" then pod.name else pod.inject_uid in
    let seen = record c { old_creating = erase id c.old_creating } in
    if pod.active then count_active key max now old_deleting pod seen else seen

unfoldable pub count_pods : String → ℤ → ℤ → Assoc ℤ → List Pod → Counting → Counting
unfolding count_pod
count_pods key max now old_deleting [] c = c
count_pods key max now old_deleting (pod ∷ pods) c =
    count_pods key max now old_deleting pods (count_pod key max now old_deleting pod c)

-- The loop over the creations whose pod was not seen.
unfoldable pub count_creations : String → ℤ → Assoc ℤ → Counting → Counting
count_creations key now [] c = c
count_creations key now ((id, time) ∷ rest) c =
    let until = time +ℤ create_pod_timeout in
    count_creations key now rest (
      if is_over until now then c else record c {
        status =
            less_one (record c.status { creating_pods = insert id time c.status.creating_pods });
        requeue = push c.requeue key (until -ℤ now);
      })

abbrev pub fresh : String → ℤ → SubsetStatus
fresh name max = record {
  name = name;
  replicas = pos 0;
  schedulable = none;
  missing_replicas = max;
  creating_pods = [];
  deleting_pods = [];
}

abbrev pub old_creating_of : Option SubsetStatus → Assoc ℤ
old_creating_of none = []
old_creating_of (some s) = s.creating_pods

abbrev pub old_deleting_of : Option SubsetStatus → Assoc ℤ
old_deleting_of none = []
old_deleting_of (some s) = s.deleting_pods

abbrev pub finish : String → ℤ → Counting → Counting
finish key now c = count_creations key now c.old_creating c

-- `max` is the maximum of the subset, -1 if it has none.
unfoldable pub calculate_subset_status :
    String → ℤ → String → ℤ → Option SubsetStatus → List Pod → DurationStore → Counting
unfolding count_pods count_creations
calculate_subset_status key now name max old pods requeue = finish key now (
    count_pods key max now (old_deleting_of old) pods
      (record { status = fresh name max; old_creating = old_creating_of old; requeue = requeue }))
