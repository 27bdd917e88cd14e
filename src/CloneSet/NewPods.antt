-- ===== src/CloneSet/NewPods.antt =====
-- The pods that a CloneSet would create: `getOrGenAvailableIDs` of
-- pkg/controller/cloneset/sync/cloneset_scale.go, and `NewVersionedPods` of
-- pkg/controller/cloneset/core/cloneset_core.go, with the names of the claims of a pod
-- (pkg/controller/cloneset/utils/cloneset_utils.go).
pub mod Free
pub mod Made
mod Examples
use kruise.Prelude.{
  ℕ, zero, suc, ◌+◌, String, str_eq, ◌<>◌, Bool, true, false, Option, none, some, List, [], ◌∷◌,
  ◌++◌, map, if◌then◌else◌,
}
use kruise.Prelude.Int.{ℤ, ◌-ℤ◌, leb_ℤ, pos_part}
use kruise.Prelude.Assoc.{Assoc, insert, Names, has, add, remove}
use kruise.Util.Pods.{Pod, label, get_short_hash, controller_revision_hash_key}
use kruise.CloneSet.Deletion.{Pvc, instance_id_key, pvc_instance_id}

-- The ids of PVCs, without the empty one.
abbrev pub pvc_ids : List Pvc → Names → Names
pvc_ids [] ids = ids
pvc_ids (pvc ∷ pvcs) ids =
    let id = pvc_instance_id pvc in pvc_ids pvcs (if str_eq id "" then ids else add id ids)

abbrev pub pod_ids : List Pod → Names → Names
pod_ids [] ids = ids
pod_ids (pod ∷ pods) ids =
    let id = label instance_id_key pod in pod_ids pods (if str_eq id "" then ids else add id ids)

abbrev pub without_pod_ids : List Pod → Names → Names
without_pod_ids [] ids = ids
without_pod_ids (pod ∷ pods) ids =
    let id = label instance_id_key pod in
    without_pod_ids pods (if str_eq id "" then ids else remove id ids)

-- The ids that are available and those that were chosen, with the number of texts drawn so far.
pub record Ids : Type 0 where
  pub available : Names
  pub chosen : Names
  pub drawn : ℕ

-- `rand n` is the n-th text that `rand.String` gives. At most `fuel` of them are drawn for one id.
module _ (rand : ℕ → String) (fuel : ℕ) where
  draw : ℕ → Names → ℕ → Option (String × ℕ)
  draw zero existing n = none
  draw (suc fuel) existing n =
      let rest = draw fuel existing (n + 1) in
      if has (rand n) existing then rest else some (rand n, n + 1)

  abbrev drawn_id : Ids → Option (String × ℕ) → Option Ids
  drawn_id s none = none
  drawn_id s (some (id, n)) = some (record s { chosen = add id s.chosen; drawn = n })

  -- `getOrGenInstanceID`, with the insertion of its result; `PopAny` takes the first in the order of
  -- iteration. The ids of the set are not empty.
  get_or_gen_instance_id : Names → Ids → Option Ids
  unfolding draw
  get_or_gen_instance_id existing s = elim s.available [
    | [] ↦ drawn_id s (draw fuel existing s.drawn)
    | id ∷ ids ↦ some (record s { available = ids; chosen = add id s.chosen })
  ]

  get_or_gen_ids : ℕ → Names → Ids → Option Ids
  get_or_gen_ids zero existing s = some s
  get_or_gen_ids (suc n) existing s = elim (get_or_gen_instance_id existing s) [
    | none ↦ none
    | some t ↦ get_or_gen_ids n existing t
  ]

  unfoldable pub get_or_gen_available_ids : ℤ → List Pod → List Pvc → ℕ → Option Ids
  unfolding get_or_gen_ids get_or_gen_instance_id
  get_or_gen_available_ids num pods pvcs drawn =
      get_or_gen_ids (pos_part num) (pod_ids pods (pvc_ids pvcs []))
        (record { available = without_pod_ids pods (pvc_ids pvcs []); chosen = []; drawn = drawn })

-- What the new pods take from a CloneSet: its name, the labels and finalizers of the pod template,
-- and the names of the templates of claims.
pub record Template : Type 0 where
  pub name : String
  pub labels : Assoc String
  pub finalizers : List String
  pub claims : List String

abbrev pub pod_template_hash_key : String
pod_template_hash_key = "pod-template-hash"

-- `WriteRevisionHash`; `short` is the feature gate CloneSetShortHash.
unfoldable pub write_revision_hash : Bool → Pod → String → Pod
unfolding get_short_hash
write_revision_hash short pod hash =
    let short_hash = get_short_hash hash in
    record pod {
      labels =
          insert pod_template_hash_key short_hash
            (insert controller_revision_hash_key (if short then short_hash else hash) pod.labels);
    }

-- The pod of one id. It has no UID before the API server has accepted it.
unfoldable pub new_pod : Bool → Template → String → String → Pod
unfolding write_revision_hash
new_pod short cs revision id =
    let blank : Pod = record {
      name = cs.name <> "-" <> id;
      uid = "";
      labels = cs.labels;
      finalizers = cs.finalizers;
    } in
    let hashed = write_revision_hash short blank revision in
    record hashed { labels = insert instance_id_key id hashed.labels }

-- `newVersionedPods`, with the ids that are left.
unfoldable pub new_pods_of : Bool → Template → String → ℕ → List String → List Pod × List String
unfolding new_pod
new_pods_of short cs revision zero ids = ([], ids)
new_pods_of short cs revision (suc n) [] = ([], [])
new_pods_of short cs revision (suc n) (id ∷ ids) =
    let (pods, left) = new_pods_of short cs revision n ids in
    (new_pod short cs revision id ∷ pods, left)

-- `NewVersionedPods`: those of the current revision first.
unfoldable pub new_versioned_pods :
    Bool → Template → Template → String → String → ℤ → ℤ → List String → List Pod
unfolding new_pods_of
new_versioned_pods short current_cs update_cs current_revision update_revision creations
      current_creations ids =
    let (current, left) =
      new_pods_of short current_cs current_revision (pos_part current_creations) ids in
    if leb_ℤ creations current_creations
    then (new_pods_of short current_cs current_revision (pos_part creations) ids).0
    else current
      ++ (new_pods_of short update_cs update_revision (pos_part (creations -ℤ current_creations))
          left).0

-- The names that `GetPersistentVolumeClaims` gives the claims of a pod.
unfoldable pub claim_names : Template → Pod → List String
claim_names cs pod = map (λ t. t <> "-" <> cs.name <> "-" <> label instance_id_key pod) cs.claims
