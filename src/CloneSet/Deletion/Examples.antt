-- ===== src/CloneSet/Deletion/Examples.antt =====
-- Runs of the deletion of pods, and the theorems at them.
use kruise.Prelude.{◌≡◌, refl, none, [], arith, count}
use kruise.Util.Pods.{get_pod_lifecycle_state, is_pod_hooked}
use kruise.Expectations.Scale.{Cache, expect_scale, observe_scale}
use kruise.CloneSet.Samples.{api, nothing_written, old_pods}
use kruise.CloneSet.Writes.{attempt}
use kruise.CloneSet.Writes.Ledger.{IsLedger}
use kruise.CloneSet.Deletion.{delete_pods, delete_from, delete_pod, delete_pvcs}
use kruise.CloneSet.Deletion.Awaited.{delete_pods-IsLedger}

-- The second pod is refused, and the others are not tried.
stops_at_b :
    count (λ a. a.accepted) (delete_pods api "ns/cs" none old_pods [] nothing_written).written.log
    ≡ 1
unfolding delete_pods delete_from delete_pod delete_pvcs attempt expect_scale observe_scale
    get_pod_lifecycle_state is_pod_hooked
stops_at_b = refl

abbrev no_cache : Cache
no_cache = []

delete_pods-IsLedger_example :
    IsLedger "ns/cs" no_cache (delete_pods api "ns/cs" none old_pods [] nothing_written).written
delete_pods-IsLedger_example =
    delete_pods-IsLedger api "ns/cs" no_cache none old_pods [] nothing_written
      (λ c a n. ground arith)
