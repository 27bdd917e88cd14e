-- ===== src/CloneSet/Updating/Examples.antt =====
-- Runs of a sync of the revision, and the theorem at them.
use kruise.Prelude.{◌≡◌, refl, Bool, some, All}
use kruise.CloneSet.Samples.{an_update, old_pods, nothing_written}
use kruise.CloneSet.Writes.{Written}
use kruise.CloneSet.Updating.{update}
use kruise.CloneSet.Updating.Paths.{IsLawful}
use kruise.CloneSet.Updating.Sync.{numbers, update-IsLawful}

update-IsLawful_example :
    (r : Written × Bool) × (update an_update old_pods nothing_written ≡ some r)
    × All (IsLawful an_update (numbers an_update old_pods).update_num old_pods) r.0.changes
update-IsLawful_example = update-IsLawful an_update old_pods nothing_written refl (λ P is h. h)
