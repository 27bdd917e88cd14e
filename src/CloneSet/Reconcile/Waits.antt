-- ===== src/CloneSet/Reconcile/Waits.antt =====
-- A controller that awaits a creation or a deletion does nothing.
use kruise.Prelude.{◌≡◌, refl, String, true, some, arith, Bool-cases, inl, inr}
use kruise.Expectations.Scale
use kruise.Expectations.Scale.Pending.{pending}
use kruise.Expectations.Scale.History.{satisfied-none, pending-satisfied}
use kruise.CloneSet.Writes.{Written}
use kruise.CloneSet.Scaling.{Sync}
use kruise.CloneSet.Updating.{Update}
use kruise.CloneSet.Reconcile.{View, Reconciled, do_reconcile}

-- Nothing was sent and nothing changed, and what was awaited still is.
pub record IsIdle (w v : Written) : Type 0 where
  pub log : v.log ≡ w.log
  pub changes : v.changes ≡ w.changes
  pub awaited : (c a n : String) → pending v.scale c a n ≡ pending w.scale c a n

-- While the controller awaits the creation or the deletion of any pod or claim of a CloneSet, a
-- reconcile of it sends no creation and no deletion and changes no pod, whatever its caches show,
-- and it awaits the same as before.
pub do_reconcile-IsIdle :
    (s : Sync) (u : Update) (view : View) (w : Written) (action name : String)
    → pending w.scale s.key action name ≡ true
    → (r : Reconciled) × (do_reconcile s u view w ≡ some r) × IsIdle w r.written
unfolding do_reconcile
do_reconcile-IsIdle s u view w action name waiting =
    elim (Bool-cases (Scale.satisfied_expectations view.now w.scale s.key).satisfied) [
      | inl satisfied ↦
          absurd
            (ground (arith, waiting, satisfied-none view.now w.scale s.key satisfied action name))
      | inr unsatisfied ↦ rw unsatisfied (
        _,
        refl,
        record {
          log = refl;
          changes = refl;
          awaited = λ c a n. pending-satisfied view.now w.scale s.key c a n;
        },
      )
    ]
