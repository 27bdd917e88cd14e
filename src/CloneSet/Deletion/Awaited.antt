-- ===== src/CloneSet/Deletion/Awaited.antt =====
-- What is awaited after `deletePods`.
use kruise.Prelude.{String, Option, List}
use kruise.Util.Pods.{Pod, Lifecycle}
use kruise.Expectations.Scale
use kruise.CloneSet.Writes.{Api, Written}
use kruise.CloneSet.Writes.Ledger.{IsLedger, attempt-IsLedger}
use kruise.CloneSet.Deletion.{Pvc, delete_pods}
use kruise.CloneSet.Deletion.Keeps.{delete_pods-keeps}

module _ (api : Api) (key : String) (cache : Scale.Cache) where
  -- Whatever the API server answers, and wherever the loop stops: if the expectations were a ledger
  -- of what was sent, they still are. So the controller awaits the deletion of a pod or a PVC
  -- exactly if its last deletion was accepted, and no other action or controller is touched.
  pub delete_pods-IsLedger :
      (l : Option Lifecycle) (pods : List Pod) (pvcs : List Pvc) (w : Written)
      → IsLedger key cache w
      → IsLedger key cache (delete_pods api key l pods pvcs w).written
  delete_pods-IsLedger l pods pvcs w h =
      delete_pods-keeps api key (IsLedger key cache)
        (λ name ok w h. attempt-IsLedger key cache Scale.delete name ok w h) (λ c got w h. h) l pods
        pvcs w h
