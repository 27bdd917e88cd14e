-- ===== src/CloneSet/Scaling/Examples.antt =====
-- Runs of a sync of the number of pods, and the theorems at them.
use kruise.Prelude.{◌≡◌, refl, some, [], arith, length}
use kruise.Prelude.Int.{pos, pos_part, ◌+ℤ◌, ◌-ℤ◌}
use kruise.CloneSet.Samples.{sync, api, clone_set, old_pods, nothing_written}
use kruise.CloneSet.Deletion.{Outcome}
use kruise.CloneSet.Scaling.{scale, manage_preparing_delete}
use kruise.CloneSet.Scaling.OneWay.{IsOneWay, scale-IsOneWay}
use kruise.CloneSet.Scaling.Cancelled.{AreCancellations, manage_preparing_delete-AreCancellations}

scale-IsOneWay_example :
    (o : Outcome) × (scale sync old_pods [] 0 nothing_written ≡ some o)
    × IsOneWay sync old_pods [] o
scale-IsOneWay_example =
    scale-IsOneWay sync old_pods [] 0 nothing_written refl (λ n. (0, omega arith, refl))

manage_preparing_delete-AreCancellations_example :
    AreCancellations clone_set old_pods
      (pos_part (clone_set.replicas -ℤ pos (length old_pods) +ℤ pos 2))
      (manage_preparing_delete api clone_set old_pods old_pods 2 nothing_written).written.changes
manage_preparing_delete-AreCancellations_example =
    manage_preparing_delete-AreCancellations api clone_set old_pods old_pods 2 nothing_written refl
