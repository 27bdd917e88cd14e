-- ===== src/CloneSet/Updating/Lawful.antt =====
-- Every change of a sync of the revision is lawful.
use kruise.Prelude.{
  refl, String, Bool, Option, none, some, List, [], ◌∷◌, Bool-cases, Option-cases, inl, inr, All,
  is_some,
}
use kruise.Prelude.Int.{ℤ, pos, ltb_ℤ}
use kruise.Prelude.Assoc.{lookup}
use kruise.Util.Pods.{
  Pod, Lifecycle, get_pod_lifecycle_state, get_short_hash, label, controller_revision_hash_key,
}
use kruise.Expectations.ResourceVersion
use kruise.CloneSet.NewPods.{pod_template_hash_key}
use kruise.CloneSet.Writes.{
  Api, Written, Change, moves, LifecycleUpdate, failed, unchanged, updated,
}
use kruise.CloneSet.Refresh.{
  InPlace, moved, refreshed, refresh_pod_state, fixed, fix_pod_template_hash_label, pushed,
  refresh_pods,
}
use kruise.CloneSet.Updating.{Update}
use kruise.CloneSet.Updating.Paths.{IsStep, IsOne, IsLawful, MaySome, next_state-IsStep}

module _ (u : Update) (num : ℤ) (all : List Pod) where
  abbrev AreLawful : List Change → Type 0
  AreLawful changes = All (IsLawful u num all) changes

  moved-keeps :
      (pod : Pod) (state : String) (delay : ℤ) (w : Written) (x : LifecycleUpdate)
      → IsLawful u num all (moves pod.name state)
      → AreLawful w.changes
      → AreLawful (moved pod state delay w x).written.changes
  moved-keeps pod state delay w failed l h = h
  moved-keeps pod state delay w unchanged l h = h
  moved-keeps pod state delay w (updated got) l h = (l, h)

  refreshed-keeps :
      (api : Api) (lifecycle : Option Lifecycle) (pod : Pod) (delay : ℤ) (w : Written)
      (o : Option String)
      → IsOne all pod
      → MaySome (IsStep (get_pod_lifecycle_state pod)) o
      → AreLawful w.changes
      → AreLawful (refreshed api lifecycle pod delay w o).written.changes
  refreshed-keeps api lifecycle pod delay w none one step h = h
  refreshed-keeps api lifecycle pod delay w (some state) one step h =
      moved-keeps pod state delay w _ (pod, one, refl, step) h

  refresh_pod_state-keeps :
      (api : Api) (in_place : InPlace) (lifecycle : Option Lifecycle) (revision : String)
      (pod : Pod) (w : Written)
      → IsOne all pod
      → AreLawful w.changes
      → AreLawful (refresh_pod_state api in_place lifecycle revision pod w).written.changes
  unfolding refresh_pod_state
  refresh_pod_state-keeps api in_place lifecycle revision pod w one h =
      elim (Option-cases (in_place.refresh pod)) [
        | inl error ↦ rw (error, refresh_pod_state) h
        | inr (delay, e) ↦
            rw (e, refresh_pod_state)
              (refreshed-keeps api lifecycle pod delay w _ one
                (next_state-IsStep lifecycle revision (in_place.is_completed pod) pod) h)
      ]

  fixed-keeps :
      (pod : Pod) (w : Written) (o : Option ResourceVersion.Object)
      → IsOne all pod
      → AreLawful w.changes
      → AreLawful (fixed pod w o).written.changes
  fixed-keeps pod w none one h = h
  fixed-keeps pod w (some got) one h = ((pod, one, refl), h)

  fix-keeps :
      (in_place : InPlace) (pod : Pod) (w : Written)
      → IsOne all pod
      → AreLawful w.changes
      → AreLawful (fix_pod_template_hash_label in_place pod w).written.changes
  unfolding fix_pod_template_hash_label
  fix-keeps in_place pod w one h =
      elim (Bool-cases (is_some (lookup pod_template_hash_key pod.labels))) [
        | inl there ↦ rw there h
        | inr absent ↦ rw absent (
            fixed-keeps pod w
              (in_place.patch_hash pod (get_short_hash (label controller_revision_hash_key pod)))
              one h)
      ]

  pushed-keeps :
      (key : String) (delay : ℤ) (w : Written)
      → AreLawful w.changes
      → AreLawful (pushed key delay w).changes
  pushed-keeps key delay w h = elim (Bool-cases (ltb_ℤ (pos 0) delay)) [
    | inl yes' ↦ rw yes' h
    | inr no' ↦ rw no' h
  ]

  pub refresh_pods-keeps :
      (api : Api) (in_place : InPlace) (key : String) (lifecycle : Option Lifecycle)
      (revision : String) (pods : List Pod) (w : Written) (m : Bool)
      → All (IsOne all) pods
      → AreLawful w.changes
      → AreLawful (refresh_pods api in_place key lifecycle revision pods w m).written.changes
  unfolding refresh_pods
  refresh_pods-keeps api in_place key lifecycle revision [] w m ones h = h
  refresh_pods-keeps api in_place key lifecycle revision (pod ∷ pods) w m ones h =
      let a = refresh_pod_state api in_place lifecycle revision pod w in
      let ha = refresh_pod_state-keeps api in_place lifecycle revision pod w ones.0 h in
      let w' = pushed key a.duration a.written in
      let b = fix_pod_template_hash_label in_place pod w' in
      let hb = fix-keeps in_place pod w' ones.0 (pushed-keeps key a.duration a.written ha) in
      elim (Bool-cases a.failed) [
        | inl bad ↦ rw bad ha
        | inr good ↦ elim (Bool-cases b.failed) [
          | inl bad ↦ rw (good, bad) hb
          | inr fine ↦
              rw (good, fine)
                (refresh_pods-keeps api in_place key lifecycle revision pods b.written _ ones.1 hb)
        ]
      ]
