-- ===== src/CloneSet/Updating/Changes.antt =====
-- What the update of a pod changes is lawful.
use kruise.Prelude.{
  refl, String, str_eq, Bool, true, false, ◌||◌, Option, none, some, List, Bool-cases, inl, inr,
  All, if◌then◌else◌,
}
use kruise.Prelude.Int.{ℤ}
use kruise.Util.LifecycleState
use kruise.Util.Pods.{Pod, get_pod_lifecycle_state, is_specified_delete}
use kruise.Expectations.ResourceVersion
use kruise.CloneSet.Writes.{
  Written, Change, LifecycleUpdate, failed, unchanged, updated, update_pod_lifecycle,
  update_pod_lifecycle_with_handler,
}
use kruise.CloneSet.Refresh.{in_place_hook}
use kruise.CloneSet.Updating.{
  Step, try_in_place, update_pod_by, old_revision, fails, done, Update, UpdateType, recreate,
  in_place_if_possible, in_place_only, InPlaceUpdate, not_in_place, update_error, stored, prepared,
  marked, recreated, back_off, carried_out, in_place_hooked, hook_marks, update_pod_in_place,
  update_pod,
}
use kruise.CloneSet.Updating.Paths
use kruise.CloneSet.Updating.Paths.{
  at_first, early, normally, once_more, IsStep, first_prepares, early_prepares, prepares,
  prepares_again, MayUpdate, IsOne, IsUpdatable, IsLawful, MaySome, next_state-IsStep, at_state,
}

both : (P : Step → Type 0) (b : Bool) (x y : Step) → P x → P y → P (if b then x else y)
both P true x y h k = h
both P false x y h k = k

-- The switch on the state of a pod.
state-cases :
    (P : Step → Type 0) (s : String) (x y z c f : Step)
    → (IsStep s LifecycleState.preparing_update → MayUpdate s → P x)
    → (IsStep s LifecycleState.preparing_update → P y)
    → (MayUpdate s → P z)
    → (MayUpdate s → P c)
    → P f
    → P (
        if str_eq s ""
          || (str_eq s LifecycleState.preparing_normal || str_eq s LifecycleState.normal)
        then x
        else if str_eq s LifecycleState.updated
        then y
        else if str_eq s LifecycleState.preparing_update
        then z
        else if str_eq s LifecycleState.updating
        then c
        else f)
state-cases P s x y z c f hx hy hz hc hf =
    let S : String → Type 0 = λ b. IsStep b LifecycleState.preparing_update in
    elim (Bool-cases (str_eq s "")) [
      | inl e ↦ rw e (hx (at_state S s "" e first_prepares) (at_state MayUpdate s "" e at_first))
      | inr n1 ↦ elim (Bool-cases (str_eq s LifecycleState.preparing_normal)) [
        | inl e ↦ rw (n1, e) (hx (at_state S s _ e early_prepares) (at_state MayUpdate s _ e early))
        | inr n2 ↦ elim (Bool-cases (str_eq s LifecycleState.normal)) [
          | inl e ↦
              rw (n1, n2, e) (hx (at_state S s _ e prepares) (at_state MayUpdate s _ e normally))
          | inr n3 ↦ elim (Bool-cases (str_eq s LifecycleState.updated)) [
            | inl e ↦ rw (n1, n2, n3, e) (hy (at_state S s _ e prepares_again))
            | inr n4 ↦ elim (Bool-cases (str_eq s LifecycleState.preparing_update)) [
              | inl e ↦ rw (n1, n2, n3, n4, e) (hz (at_state MayUpdate s _ e Paths.prepared))
              | inr n5 ↦ elim (Bool-cases (str_eq s LifecycleState.updating)) [
                | inl e ↦ rw (n1, n2, n3, n4, n5, e) (hc (at_state MayUpdate s _ e once_more))
                | inr n6 ↦ rw (n1, n2, n3, n4, n5, n6) hf
              ]
            ]
          ]
        ]
      ]
    ]

module _ (u : Update) (num : ℤ) (all : List Pod) where
  abbrev AreLawful : List Change → Type 0
  AreLawful changes = All (IsLawful u num all) changes

  -- The pod is one of them, and may be updated.
  abbrev pub IsReady : Pod → Type 0
  IsReady pod = IsOne all pod × IsUpdatable u num pod

  prepared-keeps :
      (pod : Pod) (w : Written) (x : LifecycleUpdate)
      → IsOne all pod
      → IsStep (get_pod_lifecycle_state pod) LifecycleState.preparing_update
      → AreLawful w.changes
      → AreLawful (prepared pod w x).written.changes
  prepared-keeps pod w failed one step h = h
  prepared-keeps pod w unchanged one step h = h
  prepared-keeps pod w (updated got) one step h = ((pod, one, refl, step), h)

  marked-keeps :
      (pod : Pod) (w : Written) (o : Option ResourceVersion.Object)
      → IsReady pod
      → AreLawful w.changes
      → AreLawful (marked pod w o).written.changes
  marked-keeps pod w none q h = h
  marked-keeps pod w (some got) q h = ((pod, q.0, refl, q.1), h)

  recreated-keeps :
      (pod : Pod) (w : Written)
      → IsReady pod
      → AreLawful w.changes
      → AreLawful (recreated u pod w).written.changes
  recreated-keeps pod w q h = elim (Bool-cases (is_specified_delete pod)) [
    | inl already ↦ rw already h
    | inr not_yet ↦ rw not_yet (marked-keeps pod w (u.patch_specified_delete pod) q h)
  ]

  back_off-keeps :
      (t : UpdateType) (pod : Pod) (w : Written)
      → IsReady pod
      → AreLawful w.changes
      → AreLawful (back_off u pod w t).written.changes
  back_off-keeps recreate pod w q h = recreated-keeps pod w q h
  back_off-keeps in_place_if_possible pod w q h = recreated-keeps pod w q h
  back_off-keeps in_place_only pod w q h = h

  carried_out-keeps :
      (pod : Pod) (w : Written) (x : InPlaceUpdate)
      → IsReady pod
      → MayUpdate (get_pod_lifecycle_state pod)
      → AreLawful w.changes
      → AreLawful (carried_out u pod w x).written.changes
  carried_out-keeps pod w not_in_place q may h = back_off-keeps u.update_type pod w q h
  carried_out-keeps pod w (update_error delay) q may h = h
  carried_out-keeps pod w (stored got delay) q may h = ((pod, q.0, refl, q.1, may), h)

  update_pod_in_place-keeps :
      (target : String) (pod : Pod) (w : Written)
      → IsReady pod
      → AreLawful w.changes
      → AreLawful (update_pod_in_place u target pod w).written.changes
  unfolding update_pod_in_place
  update_pod_in_place-keeps target pod w q h =
      let state = get_pod_lifecycle_state pod in
      let hook = in_place_hook u.cs.lifecycle in
      let P : Step → Type 0 = λ s. AreLawful s.written.changes in
      let carry : Step = carried_out u pod w (u.update_in_place pod target) in
      let carries : MayUpdate state → P carry =
        λ may. carried_out-keeps pod w (u.update_in_place pod target) q may h in
      let prepare : Step =
        prepared pod w
          (update_pod_lifecycle u.api pod LifecycleState.preparing_update (hook_marks hook)) in
      let again : Step = prepared pod w (
        update_pod_lifecycle_with_handler u.api u.patch_with_hook pod
          LifecycleState.preparing_update hook) in
      state-cases P state (if in_place_hooked u pod then prepare else carry) again
        (if in_place_hooked u pod then done w else carry) carry (fails w)
        (λ step may.
          both P (in_place_hooked u pod) prepare carry (prepared-keeps pod w _ q.0 step h)
            (carries may))
        (λ step. prepared-keeps pod w _ q.0 step h)
        (λ may. both P (in_place_hooked u pod) (done w) carry h (carries may)) carries h

  pub update_pod-keeps :
      (target : String) (pod : Pod) (w : Written)
      → IsReady pod
      → AreLawful w.changes
      → AreLawful (update_pod u target pod w).written.changes
  unfolding update_pod
  update_pod-keeps target pod w q h = by_type u.update_type
    where
      tried : (t : UpdateType) → AreLawful (try_in_place u target pod w t).written.changes
      tried t =
          both (λ s. AreLawful s.written.changes)
            (u.can_update_in_place (old_revision pod u.revisions) target)
            (update_pod_in_place u target pod w) (back_off u pod w t)
            (update_pod_in_place-keeps target pod w q h) (back_off-keeps t pod w q h)

      by_type : (t : UpdateType) → AreLawful (update_pod_by u target pod w t).written.changes
      by_type recreate = recreated-keeps pod w q h
      by_type in_place_if_possible = tried in_place_if_possible
      by_type in_place_only = tried in_place_only
