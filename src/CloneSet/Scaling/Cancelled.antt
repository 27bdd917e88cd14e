-- ===== src/CloneSet/Scaling/Cancelled.antt =====
-- Which deletions `managePreparingDelete` cancels.
use kruise.Prelude.{
  ℕ, ◌+◌, ◌≤◌, ◌≡◌, refl, String, str_eq, str_eq_refl, Bool, true, false, ◌&&◌, ◌||◌, not, List, [],
  ◌∷◌, arith, Bool-cases, inl, inr, All, length,
}
use kruise.Prelude.Int.{ℤ, pos, pos_part, ◌+ℤ◌, ◌-ℤ◌, leb_ℤ, -ℤ_parts, parts_apart}
use kruise.Util.LifecycleState
use kruise.Util.Pods.{Pod, is_lifecycle_mark_pod_not_ready}
use kruise.CloneSet.Types.{CloneSet, is_pod_specified_delete}
use kruise.CloneSet.Writes.{
  Api, Written, Change, moves, updates, marks, fixes, note, update_pod_lifecycle,
  LifecycleUpdate-cases,
}
use kruise.CloneSet.Scaling.{cancel_from, manage_preparing_delete}

-- One of the pods has the name, and nobody asks for its deletion.
abbrev pub may_cancel : CloneSet → List Pod → String → Bool
may_cancel cs [] n = false
may_cancel cs (p ∷ ps) n =
    (not (is_pod_specified_delete cs p) && str_eq p.name n) || may_cancel cs ps n

-- A deletion that may be cancelled is cancelled.
abbrev pub is_cancellation : CloneSet → List Pod → Change → Bool
is_cancellation cs pods (moves name state) =
    str_eq state LifecycleState.preparing_normal && may_cancel cs pods name
is_cancellation cs pods (updates name) = false
is_cancellation cs pods (marks name) = false
is_cancellation cs pods (fixes name) = false

-- At most `n` changes, each of them a cancellation.
abbrev pub AreCancellations : CloneSet → List Pod → ℕ → List Change → Type 0
AreCancellations cs pods n changes =
    (length changes ≤ n) × All (λ (c : Change). is_cancellation cs pods c ≡ true) changes

module _ (api : Api) (cs : CloneSet) (all : List Pod) where
  cancel_from-AreCancellations :
      (pods : List Pod) (diff : ℤ) (w : Written) (m : Bool) (n : ℕ)
      → ((name : String) → may_cancel cs pods name ≡ true → may_cancel cs all name ≡ true)
      → AreCancellations cs all n w.changes
      → AreCancellations cs all
          (pos_part diff + n)
          (cancel_from api cs pods diff w m).written.changes
  unfolding cancel_from
  cancel_from-AreCancellations [] diff w m n sub h = (omega (arith, h.0), h.1)
  cancel_from-AreCancellations (pod ∷ pods) diff w m n sub h =
      let sub' : (name : String) → may_cancel cs pods name ≡ true → may_cancel cs all name ≡ true =
        λ name e. sub name (ground arith) in
      elim (Bool-cases (leb_ℤ diff (pos 0))) [
        | inl enough ↦ rw (enough, cancel_from) (omega (arith, h.0), h.1)
        | inr missing ↦ elim (Bool-cases (is_pod_specified_delete cs pod)) [
          | inl specified ↦
              rw (missing, specified, cancel_from)
                (cancel_from-AreCancellations pods diff w m n sub' h)
          | inr other ↦
              let less : pos_part diff ≡ pos_part (diff -ℤ pos 1) + 1 =
                ground
                  (arith, -ℤ_parts diff (pos 1), parts_apart diff, parts_apart (diff -ℤ pos 1)) in
              elim (LifecycleUpdate-cases
                (update_pod_lifecycle api pod LifecycleState.preparing_normal false)) [
                  | inl e ↦ rw (missing, other, e, cancel_from) (omega (arith, h.0), h.1)
                  | inr (inl e) ↦
                      let r = cancel_from-AreCancellations pods (diff -ℤ pos 1) w m n sub' h in
                      rw (missing, other, e, cancel_from) (omega (arith, r.0, less), r.1)
                  | inr (inr (got, e)) ↦
                      let new : may_cancel cs all pod.name ≡ true =
                        sub pod.name (ground (arith, other, str_eq_refl pod.name)) in
                      let r =
                        cancel_from-AreCancellations pods (diff -ℤ pos 1)
                          (note (moves pod.name LifecycleState.preparing_normal) got w) true (n + 1)
                          sub' (omega (arith, h.0), (rw new refl, h.1)) in
                      rw (missing, other, e, cancel_from) (omega (arith, r.0, less), r.1)
                ]
        ]
      ]

-- With no change made before: no more deletions are cancelled than pods are missing, counted without
-- those to be deleted; and none whose pod is specified to be deleted.
pub manage_preparing_delete-AreCancellations :
    (api : Api) (cs : CloneSet) (pods in_pre_delete : List Pod) (num_to_delete : ℕ) (w : Written)
    → w.changes ≡ []
    → AreCancellations cs in_pre_delete
        (pos_part (cs.replicas -ℤ pos (length pods) +ℤ pos num_to_delete))
        (manage_preparing_delete api cs pods in_pre_delete num_to_delete w).written.changes
unfolding manage_preparing_delete
manage_preparing_delete-AreCancellations api cs pods in_pre_delete num_to_delete w empty =
    let missing = cs.replicas -ℤ pos (length pods) +ℤ pos num_to_delete in
    elim (Bool-cases (is_lifecycle_mark_pod_not_ready cs.lifecycle)) [
      | inl marked ↦ rw (marked, empty) (omega arith, tt)
      | inr cancels ↦
          let r =
            cancel_from-AreCancellations api cs in_pre_delete in_pre_delete missing w false 0
              (λ name e. e) (rw empty (omega arith, tt)) in
          rw cancels (omega (arith, r.0), r.1)
    ]
