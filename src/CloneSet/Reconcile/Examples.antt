-- ===== src/CloneSet/Reconcile/Examples.antt =====
-- Runs of a reconcile, and the theorem at them.
use kruise.Prelude.{◌≡◌, refl, false, some, []}
use kruise.Prelude.Int.{pos}
use kruise.Expectations.Scale.{create, expect_scale}
use kruise.Expectations.Scale.Pending.{pending}
use kruise.CloneSet.Samples.{sync, an_update, settled_pods, nothing_written}
use kruise.CloneSet.Writes.{Written}
use kruise.CloneSet.Reconcile.{View, Reconciled, do_reconcile}
use kruise.CloneSet.Reconcile.Waits.{IsIdle, do_reconcile-IsIdle}

abbrev view : View
view = record {
  now = 3;
  pods = settled_pods;
  pvcs = [];
  version_of = λ p. "4";
  update_revision = record { uid = "r"; resource_version = "4" };
  is_deleted = false;
  ready_for = pos 0;
  drawn = 0;
}

-- A pod was created that no cache shows.
abbrev one_created : Written
one_created = record nothing_written { scale = expect_scale [] "ns/cs" create "cs-x9k2p" }

do_reconcile-IsIdle_example :
    (r : Reconciled) × (do_reconcile sync an_update view one_created ≡ some r)
    × IsIdle one_created r.written
unfolding pending expect_scale
do_reconcile-IsIdle_example =
    do_reconcile-IsIdle sync an_update view one_created create "cs-x9k2p" refl
