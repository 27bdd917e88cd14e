-- ===== src/CloneSet/NewPods/Examples.antt =====
-- Runs of the choice of ids and of the new pods, and the theorems at them.
use kruise.Prelude.{ℕ, ◌≡◌, refl, String, false, some, List, [], ◌∷◌, arith}
use kruise.Prelude.Int.{pos, pos_part}
use kruise.Util.Pods.{get_short_hash}
use kruise.CloneSet.Samples.{old_pods, template}
use kruise.CloneSet.Deletion.{Pvc, instance_id_key}
use kruise.CloneSet.NewPods.{
  Ids, get_or_gen_available_ids, without_pod_ids, pvc_ids, new_pod, write_revision_hash,
  claim_names,
}
use kruise.CloneSet.NewPods.Free.{AreChosen, available_ids-AreChosen}

abbrev rand : ℕ → String
rand n = "x9k2p"

abbrev pvcs : List Pvc
pvcs = record { name = "data-cs-b7m4t"; labels = (instance_id_key, "b7m4t") ∷ [] } ∷ []

-- The id of the PVC is used again, and then a new one is drawn.
reuses_first :
    get_or_gen_available_ids rand 1 (pos 2) old_pods pvcs 0
    ≡ some (record { available = []; chosen = "x9k2p" ∷ "b7m4t" ∷ []; drawn = 1 })
unfolding get_or_gen_available_ids
reuses_first = refl

available_ids-AreChosen_example :
    (s : Ids) × (get_or_gen_available_ids rand 1 (pos 2) old_pods pvcs 0 ≡ some s)
    × AreChosen old_pods (without_pod_ids old_pods (pvc_ids pvcs [])) (pos_part (pos 2)) s.chosen
available_ids-AreChosen_example =
    available_ids-AreChosen rand 1 (pos 2) old_pods pvcs 0 (λ n. (0, omega arith, refl))

names_of_claims :
    claim_names template (new_pod false template "cs-new" "b7m4t") ≡ "data-cs-b7m4t" ∷ []
unfolding claim_names new_pod write_revision_hash get_short_hash
names_of_claims = refl
