-- ===== src/CloneSet/Creation/Examples.antt =====
-- Runs of the creation of pods, and the theorem at them.
use kruise.Prelude.{◌≡◌, refl, String, str_eq, ◌&&◌, List, [], ◌∷◌, if◌then◌else◌}
use kruise.Util.Pods.{Pod, set_pod_lifecycle}
use kruise.Expectations.Scale.{create}
use kruise.Expectations.Scale.Pending.{pending}
use kruise.CloneSet.Samples.{api, nothing_written, settled_pods}
use kruise.CloneSet.Writes.Ledger.{last_accepted}
use kruise.CloneSet.Creation.{create_pods}
use kruise.CloneSet.Creation.Naming.{is_named, was_created}
use kruise.CloneSet.Creation.Announced.{create_pods-awaited}

abbrev claims_of : Pod → List String
claims_of pod = (if str_eq pod.name "a" then "data-a" else "data") ∷ []

create_pods-awaited_example :
    pending
      (create_pods api "ns/cs" claims_of [] settled_pods nothing_written).written.scale
      "ns/cs"
      create
      "b"
    ≡ (if str_eq "ns/cs" "ns/cs"
        then (if str_eq create create && is_named "b" settled_pods
            then was_created "b"
                (create_pods api "ns/cs" claims_of [] settled_pods nothing_written).written.log
            else last_accepted create "b"
                (pending nothing_written.scale "ns/cs" create "b")
                (create_pods api "ns/cs" claims_of [] settled_pods nothing_written).written.log)
        else pending nothing_written.scale "ns/cs" create "b")
unfolding set_pod_lifecycle
create_pods-awaited_example =
    create_pods-awaited api "ns/cs" claims_of [] settled_pods nothing_written refl
      ((refl, tt), ((refl, tt), ((refl, tt), tt))) "ns/cs" create "b"
