-- ===== src/CloneSet/Scaling/OneWay.antt =====
-- A sync of the number of pods goes one way.
use kruise.Prelude.{
  arith, ℕ, ◌≡◌, refl, String, Bool, true, false, ◌||◌, Option, some, List, [], ◌∷◌, Bool-cases,
  inl, inr, All, ltb,
}
use kruise.Prelude.Int.{ℤ, pos, pos_part, ltb_ℤ, leb_ℤ, ◌-ℤ◌}
use kruise.Util.Pods.{Pod, is_lifecycle_mark_pod_not_ready}
use kruise.Util.LifecycleState
use kruise.Expectations.Scale
use kruise.CloneSet.Diff.{ExpectationDiffs}
use kruise.CloneSet.NewPods.Free.{Hits, available_ids-AreChosen}
use kruise.CloneSet.NewPods.{without_pod_ids, pvc_ids, pod_ids, Ids}
use kruise.CloneSet.Types.{CloneSet, is_pod_specified_delete}
use kruise.CloneSet.Writes.{
  Api, Attempt, Written, attempt, update_pod_lifecycle, LifecycleUpdate-cases, note, moves,
}
use kruise.CloneSet.Writes.Ledger.{IsLedger, attempt-IsLedger}
use kruise.CloneSet.Deletion.{
  Pvc, Outcome, delete_pods, get_planned_deleted_pods, within_ready_limit,
}
use kruise.CloneSet.Deletion.Keeps.{delete_pods-keeps}
use kruise.CloneSet.Creation.Log.{create_pods-keeps}
use kruise.CloneSet.Scaling.{
  diffs, scale, Sync, cancel_from, manage_preparing_delete, and_then, scale_out, scale_in,
  delete_in_pre_delete, delete_specified, delete_surplus, to_delete,
}

abbrev pub AreAll : Scale.ScaleAction → List Attempt → Type 0
AreAll action log = All (λ (a : Attempt). a.action ≡ action) log

-- Only deletions were sent, and what is awaited is what was accepted.
abbrev pub IsDeleting : String → Scale.Cache → Written → Type 0
IsDeleting key cache w = AreAll Scale.delete w.log × IsLedger key cache w

and_then-keeps :
    (P : Written → Type 0) (o : Outcome) (next : Written → Outcome)
    → P o.written
    → ((w : Written) → P w → P (next w).written)
    → P (and_then o next).written
and_then-keeps P o next h k = elim (Bool-cases (o.failed || o.modified)) [
  | inl stops ↦ rw stops h
  | inr goes_on ↦ rw goes_on (k o.written h)
]

-- Cancelling a deletion sends neither a creation nor a deletion.
cancel_from-keeps :
    (P : Scale.Cache → List Attempt → Type 0) (api : Api) (cs : CloneSet) (pods : List Pod)
    (diff : ℤ) (w : Written) (m : Bool)
    → P w.scale w.log
    → P
        (cancel_from api cs pods diff w m).written.scale
        (cancel_from api cs pods diff w m).written.log
unfolding cancel_from
cancel_from-keeps P api cs [] diff w m h = h
cancel_from-keeps P api cs (pod ∷ pods) diff w m h = elim (Bool-cases (leb_ℤ diff (pos 0))) [
  | inl enough ↦ rw (enough, cancel_from) h
  | inr missing ↦ elim (Bool-cases (is_pod_specified_delete cs pod)) [
    | inl specified ↦
        rw (missing, specified, cancel_from) (cancel_from-keeps P api cs pods diff w m h)
    | inr other ↦
        elim (LifecycleUpdate-cases
          (update_pod_lifecycle api pod LifecycleState.preparing_normal false)) [
            | inl e ↦ rw (missing, other, e, cancel_from) h
            | inr (inl e) ↦
                rw (missing, other, e, cancel_from)
                  (cancel_from-keeps P api cs pods (diff -ℤ pos 1) w m h)
            | inr (inr (got, e)) ↦
                rw (missing, other, e, cancel_from)
                  (cancel_from-keeps P api cs pods (diff -ℤ pos 1)
                    (note (moves pod.name LifecycleState.preparing_normal) got w) true h)
          ]
  ]
]

manage_preparing_delete-keeps :
    (P : Scale.Cache → List Attempt → Type 0) (api : Api) (cs : CloneSet) (pods waiting : List Pod)
    (n : ℕ) (w : Written)
    → P w.scale w.log
    → let r = (manage_preparing_delete api cs pods waiting n w).written in P r.scale r.log
unfolding manage_preparing_delete
manage_preparing_delete-keeps P api cs pods waiting n w h =
    elim (Bool-cases (is_lifecycle_mark_pod_not_ready cs.lifecycle)) [
      | inl marks ↦ rw marks h
      | inr cancels ↦ rw cancels (cancel_from-keeps P api cs waiting _ w false h)
    ]

module _ (s : Sync) (cache : Scale.Cache) where
  delete-IsDeleting :
      (ps : List Pod) (pvcs : List Pvc) (w : Written)
      → IsDeleting s.key cache w
      → IsDeleting s.key cache (delete_pods s.api s.key s.cs.lifecycle ps pvcs w).written
  unfolding attempt
  delete-IsDeleting =
      delete_pods-keeps s.api s.key (IsDeleting s.key cache)
        (λ name ok w h. ((refl, h.0), attempt-IsLedger s.key cache Scale.delete name ok w h.1))
        (λ c got w h. h) s.cs.lifecycle

  surplus-IsDeleting :
      (diff : ExpectationDiffs) (pods : List Pod) (pvcs : List Pvc) (w : Written)
      → IsDeleting s.key cache w
      → IsDeleting s.key cache (delete_surplus s diff pods pvcs w).written
  surplus-IsDeleting diff pods pvcs w h = elim (Bool-cases (ltb_ℤ (pos 0) diff.scale_down_num)) [
    | inr enough ↦ rw enough h
    | inl more ↦ elim (Bool-cases (ltb 0 (get_planned_deleted_pods s.cs pods).num_to_delete)) [
      | inl waits ↦ rw (more, waits) h
      | inr goes_on ↦ rw (more, goes_on) (delete-IsDeleting _ pvcs w h)
    ]
  ]

  scale_in-IsDeleting :
      (diff : ExpectationDiffs) (pods : List Pod) (pvcs : List Pvc) (w : Written)
      → IsDeleting s.key cache w
      → IsDeleting s.key cache (scale_in s diff pods pvcs w).written
  unfolding scale_in
  scale_in-IsDeleting diff pods pvcs w h =
      let P = IsDeleting s.key cache in
      and_then-keeps P (delete_in_pre_delete s pods pvcs w)
        (λ w'. and_then (delete_specified s diff pods pvcs w') (delete_surplus s diff pods pvcs))
        (delete-IsDeleting (get_planned_deleted_pods s.cs pods).in_pre_delete pvcs w h)
        (λ w k.
          and_then-keeps P (delete_specified s diff pods pvcs w) (delete_surplus s diff pods pvcs)
            (delete-IsDeleting
              (within_ready_limit s.env (pos_part diff.delete_ready_limit) (to_delete s pods)) pvcs
              w k)
            (surplus-IsDeleting diff pods pvcs))

  scale_out-AreAll :
      (diff : ExpectationDiffs) (pvcs : List Pvc) (w : Written) (ids : Ids)
      → AreAll Scale.create w.log
      → (o : Outcome) × (scale_out s diff pvcs w (some ids) ≡ some o)
        × AreAll Scale.create o.written.log
  unfolding scale_out
  scale_out-AreAll diff pvcs w ids h = (
    _,
    refl,
    create_pods-keeps s.api s.key (AreAll Scale.create) (λ name ok log h. (refl, h)) _ _ _ w h,
  )

-- Nothing but creations where pods are missing, and nothing but deletions elsewhere.
abbrev pub IsOneWay : Sync → List Pod → Scale.Cache → Outcome → Type 0
IsOneWay s pods cache o =
    (ltb_ℤ (pos 0) (diffs s pods).scale_up_num ≡ true → AreAll Scale.create o.written.log)
    × (ltb_ℤ (pos 0) (diffs s pods).scale_up_num ≡ false → IsDeleting s.key cache o.written)

abbrev IsSynced : Sync → List Pod → Scale.Cache → Option Outcome → Type 0
IsSynced s pods cache r = (o : Outcome) × (r ≡ some o) × IsOneWay s pods cache o

-- With nothing sent before, and if of every `fuel` texts that are drawn one is the id of no pod and
-- no PVC: the sync comes to an end. Where pods are missing it sends nothing but creations; elsewhere
-- it sends nothing but deletions, and awaits exactly those that were accepted.
pub scale-IsOneWay :
    (s : Sync) (pods : List Pod) (pvcs : List Pvc) (drawn : ℕ) (w : Written)
    → w.log ≡ []
    → Hits s.rand s.fuel pods
        (without_pod_ids pods (pvc_ids pvcs []))
        (pod_ids pods (pvc_ids pvcs []))
    → (o : Outcome) × (scale s pods pvcs drawn w ≡ some o) × IsOneWay s pods w.scale o
unfolding scale
scale-IsOneWay s pods pvcs drawn w empty hits =
    let planned = get_planned_deleted_pods s.cs pods in
    let managed =
      manage_preparing_delete s.api s.cs pods planned.in_pre_delete planned.num_to_delete w in
    let diff = diffs s pods in
    let start : IsDeleting s.key w.scale w × AreAll Scale.create w.log =
      rw empty ((tt, λ c a n. ground arith), tt) in
    let kept : IsDeleting s.key w.scale managed.written × AreAll Scale.create managed.written.log =
      manage_preparing_delete-keeps
        (λ c log.
          IsDeleting s.key w.scale (record w { scale = c; log = log }) × AreAll Scale.create log)
        s.api s.cs pods planned.in_pre_delete planned.num_to_delete w start in
    elim (Bool-cases (managed.failed || managed.modified)) [
      | inl stops ↦ rw stops (managed, refl, (λ e. kept.1, λ e. kept.0))
      | inr goes_on ↦ elim (Bool-cases (ltb_ℤ (pos 0) diff.scale_up_num)) [
        | inr down ↦
            rw (goes_on, down)
              (
                scale_in s diff pods pvcs managed.written,
                refl,
                (
                  λ e. absurd (ground arith),
                  λ e. scale_in-IsDeleting s w.scale diff pods pvcs managed.written kept.0,
                ),
              )
        | inl up ↦
            let (ids, e, chosen) =
              available_ids-AreChosen s.rand s.fuel diff.scale_up_limit pods pvcs drawn hits in
            let (o, f, created) = scale_out-AreAll s w.scale diff pvcs managed.written ids kept.1 in
            rw (goes_on, up, e) (o, f, (λ e. created, λ e. absurd (ground arith)))
      ]
    ]
