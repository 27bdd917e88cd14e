-- ===== src/Stateful/Control/Examples.antt =====
-- Runs of a pass over a StatefulSet, and the theorems at them.
use kruise.Prelude.{◌≡◌, ◌≤◌, refl, none, some, List, [], ◌∷◌, arith, true, false}
use kruise.Prelude.Decimal.{below, natural}
use kruise.Prelude.Int.{pos, negsuc, ◌-ℤ◌}
use kruise.Util.Pods.{is_pod_hooked}
use kruise.Stateful.Types.{deletes, is_running_and_ready, is_running_and_available, StatefulSet}
use kruise.Stateful.Pass.{Run, delete_pod, get_min_ready_seconds}
use kruise.Stateful.Tally.{tally, fresh_status, Tally}
use kruise.Stateful.Tally.Counts.{IsCounted, tally-IsCounted}
use kruise.Stateful.Replicas.{visit_replicas}
use kruise.Stateful.Replicas.Ordered.{InOrder, visit_replicas-InOrder, run_of}
use kruise.Stateful.Replicas.Limited.{creations, visit_replicas-creations}
use kruise.Stateful.Condemned.{reverse_onto, terminate_condemned}
use kruise.Stateful.Condemned.LastFirst.{LastFirst, IsAscending, terminate_condemned-LastFirst}
use kruise.Stateful.Names.{get_ordinal, get_parent_name_and_ordinal}
use kruise.Stateful.Rolling.{update_with_maximum, sort_pods_to_update, places}
use kruise.Stateful.Rolling.Targets.{
  OnlyReorders, KeepsPartition, sort_pods_to_update-KeepsPartition,
}
use kruise.Stateful.Rolling.Unavailable.{EndsSafe, update_with_maximum-IsSafe}
use kruise.Stateful.History.{ControllerRevision, panics, live_revisions, truncate_history}
use kruise.Stateful.History.Truncated.{IsTruncated, truncate_history-IsTruncated}
use kruise.Stateful.Control.{scale_pods}
use kruise.Stateful.Control.Monotonic.{IsMonotonic, scale_pods-IsMonotonic}
use kruise.Stateful.Samples.{pass_of, set_of, rolling, pod, run_with, replicas, condemned}

abbrev start : Run
start = run_with replicas none

tallied : Tally
tallied = record { status = start.status; replicas = replicas; condemned = condemned }

scale_pods-IsMonotonic_example :
    IsMonotonic (pass_of false) tallied start (scale_pods (pass_of false) tallied start)
scale_pods-IsMonotonic_example = scale_pods-IsMonotonic (pass_of false) refl tallied start

visit_replicas-InOrder_example :
    InOrder (pass_of false) replicas [] (visit_replicas (pass_of false) 0 replicas start)
visit_replicas-InOrder_example = visit_replicas-InOrder (pass_of false) refl 0 replicas start

visit_replicas-creations_example :
    creations (run_of (visit_replicas (pass_of true) 0 replicas (run_with replicas (some (pos 1)))))
    ≤ 1
visit_replicas-creations_example =
    visit_replicas-creations (pass_of true) 0 replicas (run_with replicas (some (pos 1)))
      (omega arith)

-- The last pod goes first.
the_last_goes :
    run_of (terminate_condemned (pass_of false) none (reverse_onto condemned []) 1 start)
    ≡ record start { log = deletes (pod "web-4" "old" true) ∷ [] }
unfolding terminate_condemned get_min_ready_seconds delete_pod is_running_and_available
    is_running_and_ready is_pod_hooked
the_last_goes = refl

condemned-IsAscending : IsAscending condemned
unfolding get_ordinal get_parent_name_and_ordinal below natural
condemned-IsAscending = ((omega arith, tt), (tt, tt))

terminate_condemned-LastFirst_example :
    LastFirst
      (pass_of false)
      none
      condemned
      []
      (terminate_condemned (pass_of false) none (reverse_onto condemned []) 1 start)
terminate_condemned-LastFirst_example =
    terminate_condemned-LastFirst (pass_of false) none condemned start condemned-IsAscending

reorders : OnlyReorders (pass_of false)
reorders P s _ is h = h

update_with_maximum-IsSafe_example :
    EndsSafe (pass_of false) 1 replicas [] (update_with_maximum (pass_of false) (pos 1) start)
update_with_maximum-IsSafe_example =
    update_with_maximum-IsSafe (pass_of false) reorders (pos 1) start

from_the_partition_on : sort_pods_to_update (pass_of false) (some rolling) replicas ≡ 2 ∷ 1 ∷ []
unfolding sort_pods_to_update places
from_the_partition_on = refl

sort_pods_to_update-KeepsPartition_example :
    KeepsPartition
      (pass_of false)
      (some rolling)
      (sort_pods_to_update (pass_of false) (some rolling) replicas)
sort_pods_to_update-KeepsPartition_example =
    sort_pods_to_update-KeepsPartition (pass_of false) (some rolling) replicas

tally-IsCounted_example :
    IsCounted
      (pos 2)
      (tally (pass_of false) 3 condemned (fresh_status (pass_of false) "" (pos 0))).status
tally-IsCounted_example = tally-IsCounted (pass_of false) 3 condemned "" (pos 0)

abbrev history : List ControllerRevision
history =
    record { name = "a"; revision = pos 1 }
    ∷ record { name = "b"; revision = pos 2 }
    ∷ record { name = "old"; revision = pos 3 }
    ∷ []

abbrev below_zero : StatefulSet
below_zero = record (set_of false) { revision_history_limit = negsuc 0 }

-- With the limit -1, two revisions are deleted and the third one, which is not there, is read.
of_what_is_not_there :
    truncate_history (λ names name. true) below_zero condemned history (some "old") (some "old")
    ≡ panics ("b" ∷ "a" ∷ [])
unfolding truncate_history live_revisions ◌-ℤ◌
of_what_is_not_there = refl

truncate_history-IsTruncated_example :
    IsTruncated condemned (some "old") (some "old") (pos 1) history (
      truncate_history
        (λ names name. true)
        (set_of false)
        condemned
        history
        (some "old")
        (some "old"))
truncate_history-IsTruncated_example =
    truncate_history-IsTruncated (λ names name. true) (set_of false) condemned history (some "old")
      (some "old")
