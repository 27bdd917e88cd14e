-- ===== src/Stateful/Rolling/Targets.antt =====
-- Which replicas a rolling update goes through, and which count as unavailable.
use kruise.Prelude.{
  ℕ, suc, ◌+◌, ◌≤◌, ◌≡◌, inl, inr, refl, sym, Bool, not, Option, none, some, List, [], ◌∷◌, ◌++◌,
  arith, Bool-cases, All, All-append, All-take, length, length-take, if◌then◌else◌, is_some,
}
use kruise.Prelude.Int.{ℤ, pos, pos_part, leb_ℤ, ◌≤ℤ◌, ◌-ℤ◌}
use kruise.Util.Priority.{PriorityStrategy}
use kruise.Stateful.Types.{Pod, RollingUpdate}
use kruise.Stateful.Pass.{Pass}
use kruise.Stateful.Rolling.Within.{HasPod}
use kruise.Stateful.Rolling.{
  sort_pods_to_update, places, keep_from, keep_at, unordered, counts_as_updated,
}

module _ (P : ℕ → Type 0) where
  keep_at-All : (test : ℕ → Bool) (xs : List ℕ) → All P xs → All P (keep_at test xs)
  keep_at-All test [] h = tt
  keep_at-All test (x ∷ xs) h = elim (Bool-cases (test x)) [
    | inl on ↦ rw on (h.0, keep_at-All test xs h.1)
    | inr off ↦ rw off (keep_at-All test xs h.1)
  ]

  keep_from-All : (m : ℤ) (xs : List ℕ) → All P xs → All P (keep_from m xs)
  keep_from-All m [] h = tt
  keep_from-All m (x ∷ xs) h = elim (Bool-cases (leb_ℤ m (pos x))) [
    | inl on ↦ rw on (h.0, keep_from-All m xs h.1)
    | inr off ↦ rw off (keep_from-All m xs h.1)
  ]

  places-All :
      (rs : List (Option Pod)) (i : ℕ) → ((j : ℕ) → HasPod rs j → P (i + j)) → All P (places i rs)
  unfolding places
  places-All [] i h = tt
  places-All (none ∷ rest) i h =
      places-All rest (i + 1)
        (λ j k. let e : i + 1 + j ≡ i + suc j = omega arith in rw e (h (suc j) k))
  places-All (some pod ∷ rest) i h =
      All-append P (places (i + 1) rest) (i ∷ [])
        (places-All rest (i + 1)
          (λ j k. let e : i + 1 + j ≡ i + suc j = omega arith in rw e (h (suc j) k)))
        ((let e : i + 0 ≡ i = omega arith in rw (sym e) (h 0 (pod, refl))), tt)

-- A sort that gives only indexes that it was given.
abbrev pub OnlyReorders : Pass → Type 1
OnlyReorders p =
    (P : ℕ → Type 0) (s : PriorityStrategy) (replicas : List (Option Pod)) (is : List ℕ)
    → All P is
    → All P (p.world.sort_by_priority s replicas is)

places-HasPod : (replicas : List (Option Pod)) → All (HasPod replicas) (places 0 replicas)
places-HasPod replicas =
    places-All (HasPod replicas) replicas 0 (λ j k. let e : 0 + j ≡ j = omega arith in rw e k)

-- If the sort by priority only reorders: every index of the update is that of a pod.
pub sort_pods_to_update-HasPod :
    (p : Pass)
    → OnlyReorders p
    → (u : Option RollingUpdate) (replicas : List (Option Pod))
    → All (HasPod replicas) (sort_pods_to_update p u replicas)
unfolding sort_pods_to_update
sort_pods_to_update-HasPod p only none replicas = places-HasPod replicas
sort_pods_to_update-HasPod p only (some u) replicas = from u.unordered_update refl
  where
    done : All (HasPod replicas) (keep_at (λ i. counts_as_updated p replicas i) (places 0 replicas))
    done = keep_at-All (HasPod replicas) _ _ (places-HasPod replicas)

    waiting :
        All
          (HasPod replicas)
          (keep_at (λ i. not (counts_as_updated p replicas i)) (places 0 replicas))
    waiting = keep_at-All (HasPod replicas) _ _ (places-HasPod replicas)

    cut :
        (max : ℤ) (is : List ℕ)
        → All (HasPod replicas) is
        → All (HasPod replicas) (unordered p replicas max is)
    cut max is h = elim (Bool-cases (leb_ℤ max (pos 0))) [
      | inl on ↦ rw on tt
      | inr off ↦ rw off (All-take (HasPod replicas) _ _ (All-append (HasPod replicas) _ is done h))
    ]

    from :
        (o : Option (Option PriorityStrategy))
        → u.unordered_update ≡ o
        → All (HasPod replicas) (sort_pods_to_update p (some u) replicas)
    from none e =
        rw (e, sort_pods_to_update)
          (keep_from-All (HasPod replicas) u.partition _ (places-HasPod replicas))
    from (some none) e = rw (e, sort_pods_to_update) (cut (p.set.replicas -ℤ u.partition) _ waiting)
    from (some (some s)) e =
        rw (e, sort_pods_to_update)
          (cut (p.set.replicas -ℤ u.partition) _ (only (HasPod replicas) s replicas _ waiting))

-- What the partition asks of the targets.
abbrev pub KeepsPartition : Pass → Option RollingUpdate → List ℕ → Type 0
KeepsPartition p none is = Unit
KeepsPartition p (some u) is =
    if is_some u.unordered_update
    then length is ≤ pos_part (p.set.replicas -ℤ u.partition)
    else All (λ i. u.partition ≤ℤ pos i) is

-- Whatever the sort by priority answers: the targets of an update keep to the partition. In the order
-- of the ordinals none of them is below it; in any other order they are no more than the replicas
-- without it.
pub sort_pods_to_update-KeepsPartition :
    (p : Pass) (u : Option RollingUpdate) (replicas : List (Option Pod))
    → KeepsPartition p u (sort_pods_to_update p u replicas)
unfolding sort_pods_to_update
sort_pods_to_update-KeepsPartition p none replicas = tt
sort_pods_to_update-KeepsPartition p (some u) replicas = from u.unordered_update refl
  where
    above : (is : List ℕ) → All (λ i. u.partition ≤ℤ pos i) (keep_from u.partition is)
    above [] = tt
    above (i ∷ is) = elim (Bool-cases (leb_ℤ u.partition (pos i))) [
      | inl on ↦ rw on (ground (arith, on), above is)
      | inr off ↦ rw off (above is)
    ]

    cut : (max : ℤ) (is : List ℕ) → length (unordered p replicas max is) ≤ pos_part max
    cut max is = elim (Bool-cases (leb_ℤ max (pos 0))) [
      | inl on ↦ rw on (omega arith)
      | inr off ↦ rw off (
          omega (
            arith,
            length-take (pos_part max)
                (keep_at (λ i. counts_as_updated p replicas i) (places 0 replicas) ++ is),
          ))
    ]

    from :
        (o : Option (Option PriorityStrategy))
        → u.unordered_update ≡ o
        → KeepsPartition p (some u) (sort_pods_to_update p (some u) replicas)
    from none e = rw (e, sort_pods_to_update) (above (places 0 replicas))
    from (some none) e = rw (e, sort_pods_to_update) (cut (p.set.replicas -ℤ u.partition) _)
    from (some (some s)) e = rw (e, sort_pods_to_update) (cut (p.set.replicas -ℤ u.partition) _)
