-- ===== src/Stateful/Names/Examples.antt =====
-- Runs of the names of pods, and the theorem at them.
use kruise.Prelude.{◌≡◌, refl, false, [], arith}
use kruise.Prelude.Int.{pos, negsuc}
use kruise.Prelude.Decimal.{codes, natural, below, digits}
use kruise.Stateful.Names.{
  get_pod_name, decimal, get_parent_name_and_ordinal, get_persistent_volume_claim_name,
  identity_matches,
}
use kruise.Stateful.Names.RoundTrip.{get_parent_name_and_ordinal-get_pod_name}

tenth : get_pod_name (codes "web-app") 10 ≡ codes "web-app-10"
unfolding get_pod_name decimal
tenth = refl

its_claim : get_persistent_volume_claim_name (codes "data") (codes "web") 3 ≡ codes "data-web-3"
unfolding get_persistent_volume_claim_name decimal
its_claim = refl

no_ordinal : get_parent_name_and_ordinal (codes "web-x1") ≡ ([], negsuc 0)
unfolding get_parent_name_and_ordinal
no_ordinal = refl

-- An ordinal with a zero in front is read, but is not the identity of a pod.
zero_in_front :
    identity_matches
      (codes "web")
      (codes "ns")
      (record { name = codes "web-01"; namespace = codes "ns"; pod_name_label = codes "web-01" })
    ≡ false
unfolding identity_matches get_parent_name_and_ordinal get_pod_name decimal below natural digits
zero_in_front = refl

get_parent_name_and_ordinal-get_pod_name_example :
    get_parent_name_and_ordinal (get_pod_name (codes "web-app") 10) ≡ (codes "web-app", pos 10)
get_parent_name_and_ordinal-get_pod_name_example =
    get_parent_name_and_ordinal-get_pod_name (codes "web-app") 10 (omega arith)
