-- ===== src/CloneSet/Deletion/Keeps.antt =====
-- The invariant rule of `deletePods`: what every attempt and every change of a pod keeps.
use kruise.Prelude.{
  String, str_eq, Bool, false, Option, none, some, List, [], ◌∷◌, Bool-cases, inl, inr,
}
use kruise.Util.LifecycleState
use kruise.Util.Pods.{Pod, Lifecycle, LifecycleHook, label}
use kruise.Expectations.Scale
use kruise.CloneSet.Writes.{
  Api, Written, LifecycleUpdate, failed, unchanged, updated, update_pod_lifecycle,
}
use kruise.CloneSet.Deletion.{
  Pvc, pvc_instance_id, instance_id_key, holding_hook, delete_pvcs, delete_pod, delete_from,
  delete_pods, hooked,
}
use kruise.Expectations.ResourceVersion
use kruise.CloneSet.Writes.{Change, note, attempt}

module _ {ℓ} (api : Api) (key : String) (P : Written → Type ℓ)
    (attempts : (name : String) (ok : Bool) (w : Written)
      → P w
      → P (attempt key Scale.delete name ok w))
    (notes : (c : Change) (got : ResourceVersion.Object) (w : Written)
      → P w
      → P (note c got w)) where
  delete_pvcs-keeps :
      (id : String) (pvcs : List Pvc) (w : Written) → P w → P (delete_pvcs api key id pvcs w).0
  unfolding delete_pvcs
  delete_pvcs-keeps id [] w h = h
  delete_pvcs-keeps id (pvc ∷ pvcs) w h =
      let ok = api.accepts_pvc w.log Scale.delete pvc.name in
      let next = attempts pvc.name ok w h in
      elim (Bool-cases (str_eq (pvc_instance_id pvc) id)) [
        | inr other ↦ rw other (delete_pvcs-keeps id pvcs w h)
        | inl same ↦ elim (Bool-cases ok) [
          | inl good ↦ rw (same, good) (delete_pvcs-keeps id pvcs _ (rw (← good) next))
          | inr bad ↦ rw (same, bad) (rw (← bad) next)
        ]
      ]

  delete_pod-keeps :
      (hook : Option LifecycleHook) (pod : Pod) (pvcs : List Pvc) (w : Written) (m : Bool)
      → P w
      → P (delete_pod api key hook pod pvcs w m).written
  unfolding delete_pod
  delete_pod-keeps none pod pvcs w m h =
      let ok = api.accepts_pod w.log Scale.delete pod.name in
      let next = attempts pod.name ok w h in
      elim (Bool-cases ok) [
        | inl good ↦
            rw good (delete_pvcs-keeps (label instance_id_key pod) pvcs _ (rw (← good) next))
        | inr bad ↦ rw bad (rw (← bad) next)
      ]
  delete_pod-keeps (some hook) pod pvcs w m h =
      hooked-keeps w m h
        (update_pod_lifecycle api pod LifecycleState.preparing_delete hook.mark_pod_not_ready)
    where
      hooked-keeps :
          (w : Written) (m : Bool)
          → P w
          → (u : LifecycleUpdate) → P (hooked api key pod u w m).written
      hooked-keeps w m h failed = h
      hooked-keeps w m h unchanged = h
      hooked-keeps w m h (updated got) = notes _ got w h

  delete_from-keeps :
      (l : Option Lifecycle) (pods : List Pod) (pvcs : List Pvc) (w : Written) (m : Bool)
      → P w
      → P (delete_from api key l pods pvcs w m).written
  unfolding delete_from
  delete_from-keeps l [] pvcs w m h = h
  delete_from-keeps l (pod ∷ pods) pvcs w m h =
      let o = delete_pod api key (holding_hook l pod) pod pvcs w m in
      let first = delete_pod-keeps (holding_hook l pod) pod pvcs w m h in
      elim (Bool-cases o.failed) [
        | inl bad ↦ rw bad first
        | inr good ↦ rw good (delete_from-keeps l pods pvcs o.written o.modified first)
      ]

  pub delete_pods-keeps :
      (l : Option Lifecycle) (pods : List Pod) (pvcs : List Pvc) (w : Written)
      → P w
      → P (delete_pods api key l pods pvcs w).written
  unfolding delete_pods
  delete_pods-keeps l pods pvcs w h = delete_from-keeps l pods pvcs w false h
