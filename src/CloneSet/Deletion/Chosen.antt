-- ===== src/CloneSet/Deletion/Chosen.antt =====
-- How many pods are chosen for deletion, and which.
use kruise.Prelude.{
  ℕ, zero, suc, ◌+◌, ◌-◌, ◌≤◌, ◌<◌, ◌≡◌, refl, ◌∙◌, Bool, true, false, not, List, [], ◌∷◌, arith,
  Bool-cases, inl, inr, length, take, count, ltb, length-append, length-take, count-append,
}
use kruise.Prelude.Int.{ℤ, pos, pos_part, ◌-ℤ◌, ◌≤ℤ◌, leb_ℤ, ltb_ℤ, -ℤ_parts, parts_apart}
use kruise.Util.Pods.{Pod}
use kruise.CloneSet.Types.{Env, is_pod_ready}
use kruise.CloneSet.Deletion.{within_ready_limit, choose, choose_pods_to_delete}

ltb→lt : (a b : ℕ) → ltb a b ≡ true → a < b
ltb→lt a b h = ground arith

-- No more ready pods are let through than the limit allows, and every pod that is not ready is.
pub within_ready_limit-count :
    (env : Env) (limit : ℕ) (pods : List Pod)
    → (count (is_pod_ready env) (within_ready_limit env limit pods) ≤ limit)
      × (count (λ p. not (is_pod_ready env p)) (within_ready_limit env limit pods)
          ≡ count (λ p. not (is_pod_ready env p)) pods)
unfolding within_ready_limit
within_ready_limit-count env limit [] = omega arith
within_ready_limit-count env limit (p ∷ ps) =
    ground
      (arith, within_ready_limit-count env limit ps, within_ready_limit-count env (limit - 1) ps)

count-take : (p : Pod → Bool) (n : ℕ) (ps : List Pod) → count p (take n ps) ≤ count p ps
count-take p zero ps = omega arith
count-take p (suc n) [] = omega arith
count-take p (suc n) (x ∷ ps) = omega (arith, count-take p n ps)

count-all : (ps : List Pod) → count (λ p. true) ps ≡ length ps
count-all [] = refl
count-all (x ∷ ps) = omega (arith, count-all ps)

-- A ranking only changes the order.
abbrev pub IsReordering : (List Pod → List Pod) → Type 0
IsReordering sort = (p : Pod → Bool) (ps : List Pod) → count p (sort ps) ≡ count p ps

-- `chosen` are `n` of the pods.
abbrev IsChoice : ℕ → List Pod → List Pod → Type 0
IsChoice n pods chosen = (length chosen ≡ n) × ((p : Pod → Bool) → count p chosen ≤ count p pods)

choose-IsChoice :
    (sort : List Pod → List Pod) (pods : List Pod) (n : ℕ)
    → IsReordering sort
    → n ≤ length pods
    → IsChoice n pods (choose sort pods n)
choose-IsChoice sort pods n r le =
    let same : length (sort pods) ≡ length pods =
      omega (arith, count-all pods, count-all (sort pods), r (λ p. true) pods) in
    elim (Bool-cases (ltb n (length pods))) [
      | inl some_of ↦ rw some_of (
        omega (arith, length-take n (sort pods), ltb→lt n (length pods) some_of),
        λ p. omega (arith, count-take p n (sort pods), r p pods),
      )
      | inr all_of ↦ rw all_of (ground arith, λ p. omega arith)
    ]

split_total :
    (total old : ℤ) (m n : ℕ)
    → m ≡ pos_part old
    → n ≡ pos_part (total -ℤ old)
    → leb_ℤ total old ≡ false
    → ltb_ℤ (pos 0) old ≡ true
    → m + n ≡ pos_part total
split_total total old m n e f more both =
    ground
      (arith, -ℤ_parts total old, parts_apart total, parts_apart old, parts_apart (total -ℤ old))

-- If the ranking only reorders, and if there are as many old pods as are to go of them, and as many
-- new ones as are missing then: exactly as many pods are chosen as are to go, and none of them is
-- chosen more often than it occurs.
pub choose_pods_to_delete-count :
    (sort : List Pod → List Pod) (total old : ℤ) (old_pods new_pods : List Pod)
    → IsReordering sort
    → pos 0 ≤ℤ total
    → old ≤ℤ pos (length old_pods)
    → total -ℤ old ≤ℤ pos (length new_pods)
    → (length (choose_pods_to_delete sort total old old_pods new_pods) ≡ pos_part total)
      × ((p : Pod → Bool)
          → count p (choose_pods_to_delete sort total old old_pods new_pods)
            ≤ count p old_pods + count p new_pods)
unfolding choose_pods_to_delete
choose_pods_to_delete-count sort total old old_pods new_pods r h a b =
    elim (Bool-cases (leb_ℤ total old)) [
      | inl old_only ↦
          let c = choose-IsChoice sort old_pods (pos_part total) r (ground (arith)) in
          rw old_only (c.0, λ p. omega (arith, c.1 p))
      | inr more ↦ elim (Bool-cases (ltb_ℤ (pos 0) old)) [
        | inl both ↦
            let c = choose-IsChoice sort old_pods (pos_part old) r (ground arith) in
            let d = choose-IsChoice sort new_pods (pos_part (total -ℤ old)) r (ground arith) in
            rw (more, both)
              (
                length-append (choose sort old_pods (pos_part old)) _
                    ∙ split_total total old (length (choose sort old_pods (pos_part old))) _ c.0 d.0
                        more both,
                λ p. omega (
                  arith,
                  c.1 p,
                  d.1 p,
                  count-append p (choose sort old_pods (pos_part old))
                      (choose sort new_pods (pos_part (total -ℤ old))),
                ),
              )
        | inr new_only ↦
            let c =
              choose-IsChoice sort new_pods (pos_part total) r
                (ground (arith, -ℤ_parts total old)) in
            rw (more, new_only) (c.0, λ p. omega (arith, c.1 p))
      ]
    ]
