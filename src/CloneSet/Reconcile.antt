-- ===== src/CloneSet/Reconcile.antt =====
-- `doReconcile` and `syncCloneSet` of pkg/controller/cloneset/cloneset_controller.go: the guards on
-- the expectations, and the composition of `Scale` and `Update`. What the controller lists, its
-- revisions and its status are what a `View` holds.
pub mod Waits
mod Examples
use kruise.Prelude.{
  ℕ, String, Bool, true, false, ◌&&◌, ◌||◌, not, Option, none, some, List, [], ◌∷◌, if◌then◌else◌,
}
use kruise.Prelude.Int.{ℤ, pos, ◌-ℤ◌, leb_ℤ}
use kruise.Util.Pods.{Pod}
use kruise.Util.Requeue.{push, pop}
use kruise.Expectations.Scale
use kruise.Expectations.ResourceVersion
use kruise.CloneSet.Writes.{Written}
use kruise.CloneSet.Deletion.{Pvc, Outcome}
use kruise.CloneSet.Scaling.{Sync, scale}
use kruise.CloneSet.Updating.{Update, update}

-- Five minutes, unless the flag of the command line says otherwise.
abbrev pub expectation_timeout : ℤ
expectation_timeout = pos 300000000000

-- What the caches show at the time `now`, and how many texts have been drawn. `ready_for` is the time
-- to wait for pods that are ready and not yet available, or 0.
pub record View : Type 0 where
  pub now : ℕ
  pub pods : List Pod
  pub pvcs : List Pvc
  pub version_of : Pod → String
  pub update_revision : ResourceVersion.Object
  pub is_deleted : Bool
  pub ready_for : ℤ
  pub drawn : ℕ

pub record Reconciled : Type 0 where
  pub written : Written
  pub requeue_after : ℤ
  pub failed : Bool

-- A reconcile that waits. In the end the duration of the controller is taken off in any case.
abbrev pub waits : String → Written → ℤ → Reconciled
waits key w duration = record {
  written = record w { requeue = (pop w.requeue key).0 };
  requeue_after =
      if leb_ℤ expectation_timeout duration then pos 0 else expectation_timeout -ℤ duration;
  failed = false;
}

-- An object is observed, and then asked for.
abbrev pub asked : ℕ → ResourceVersion.Store → ResourceVersion.Object → ResourceVersion.Verdict
asked now store obj = ResourceVersion.is_satisfied now (ResourceVersion.observe store obj) obj

-- The store after the question for every pod, or the one at which the reconcile waits, with the time.
pub data Checked : Type 0 where
  stale : ResourceVersion.Store → ℤ → Checked
  fresh : ResourceVersion.Store → Checked

unfoldable pub check_pods : ℕ → (Pod → String) → List Pod → ResourceVersion.Store → Checked
check_pods now version_of [] store = fresh store
check_pods now version_of (pod ∷ pods) store =
    let v = asked now store (record { uid = pod.uid; resource_version = version_of pod }) in
    let rest = check_pods now version_of pods v.store in
    if v.satisfied then rest else stale v.store v.unsatisfied_for

-- `syncCloneSet`: what was written, and whether there was an error.
abbrev updated_after : Outcome → Option (Written × Bool) → Option (Written × Bool)
updated_after o none = none
updated_after o (some (w, error)) = some (w, o.failed || error)

abbrev scaled : Update → List Pod → Option Outcome → Option (Written × Bool)
scaled u pods none = none
scaled u pods (some o) =
    if o.modified then some (o.written, o.failed) else updated_after o (update u pods o.written)

unfoldable pub sync_clone_set : Sync → Update → View → Written → Option (Written × Bool)
sync_clone_set s u view w =
    if view.is_deleted
    then some (w, false)
    else scaled u view.pods (scale s view.pods view.pvcs view.drawn w)

-- The end of a reconcile that has synced.
abbrev finished : String → ℤ → Option (Written × Bool) → Option Reconciled
finished key ready_for none = none
finished key ready_for (some (w, error)) =
    let store =
      if error || leb_ℤ ready_for (pos 0) then w.requeue else push w.requeue key ready_for in
    some (record {
      written = record w { requeue = (pop store key).0 };
      requeue_after = (pop store key).1;
      failed = error;
    })

abbrev with_pods : Sync → Update → View → Written → Checked → Option Reconciled
with_pods s u view w (stale store duration) =
    some (waits s.key (record w { versions = store }) duration)
with_pods s u view w (fresh store) =
    finished s.key view.ready_for (sync_clone_set s u view (record w { versions = store }))

-- The guard on the update revision, which is dropped after the timeout, and then that on the pods.
unfoldable pub with_versions : Sync → Update → View → Written → Option Reconciled
unfolding check_pods sync_clone_set
with_versions s u view w =
    let v = asked view.now w.versions view.update_revision in
    let store =
      if v.satisfied then v.store else ResourceVersion.delete v.store view.update_revision in
    if not v.satisfied && not (leb_ℤ expectation_timeout v.unsatisfied_for)
    then some (waits s.key (record w { versions = v.store }) v.unsatisfied_for)
    else with_pods s u view w (check_pods view.now view.version_of view.pods store)

-- `doReconcile`. `none` stands for a drawing of ids that does not end, or an index out of range.
unfoldable pub do_reconcile : Sync → Update → View → Written → Option Reconciled
unfolding with_versions
do_reconcile s u view w =
    let v = Scale.satisfied_expectations view.now w.scale s.key in
    if not v.satisfied
    then some (waits s.key (record w { scale = v.cache }) v.unsatisfied_for)
    else with_versions s u view (record w { scale = v.cache })
