-- ===== src/Spread/Status/Missing.antt =====
-- The bounds of what a subset is missing.
use kruise.Prelude.{
  ℕ, ◌+◌, ◌≡◌, inl, inr, refl, ap, sym, ◌∙◌, to_ℕ, String, Bool, true, false, Option, none, some,
  List, [], ◌∷◌, arith, Bool-cases, if◌then◌else◌, count,
}
use kruise.Prelude.Int.{ℤ, pos, negsuc, ◌≤ℤ◌, ◌+ℤ◌, ◌-ℤ◌, int_laws}
use kruise.Prelude.Assoc.{Assoc, lookup, insert, erase}
use kruise.Util.Requeue.{DurationStore, push}
use kruise.Spread.{SubsetStatus}
use kruise.Spread.Status.{
  Pod, Counting, less_one, one_more_below, count_deletion, count_pod, count_active, count_pods,
  count_creations, fresh, old_creating_of, old_deleting_of, calculate_subset_status, is_over,
  delete_pod_timeout, create_pod_timeout,
}

-- Where there is a limit, from 0 to it; -1 where there is none.
abbrev pub IsWithin : ℤ → ℤ → Type 0
IsWithin (pos max) m = (pos 0 ≤ℤ m) × (m ≤ℤ pos max)
IsWithin (negsuc n) m = m ≡ negsuc n

less_one-IsWithin :
    (max : ℤ) (s : SubsetStatus)
    → IsWithin max s.missing_replicas
    → IsWithin max (less_one s).missing_replicas
less_one-IsWithin (pos max) s h = grind int_laws
less_one-IsWithin (negsuc n) s h = rw h (ground arith)

one_more-IsWithin :
    (max : ℤ) (s : SubsetStatus)
    → IsWithin max s.missing_replicas
    → IsWithin max (one_more_below max s).missing_replicas
one_more-IsWithin (pos max) s h = grind int_laws
one_more-IsWithin (negsuc n) s h = rw h (ground arith)

count_deletion-IsWithin :
    (key : String) (max now : ℤ) (pod : Pod) (c : Counting) (o : Option ℤ)
    → IsWithin max c.status.missing_replicas
    → IsWithin max (count_deletion key max now pod c o).status.missing_replicas
      × ((count_deletion key max now pod c o).status.replicas ≡ c.status.replicas)
unfolding count_deletion
count_deletion-IsWithin key max now pod c none h = (h, refl)
count_deletion-IsWithin key max now pod c (some time) h =
    elim (Bool-cases (is_over (time +ℤ delete_pod_timeout) now)) [
      | inl on ↦ rw on (h, refl)
      | inr off ↦ rw off (one_more-IsWithin max c.status h, refl)
    ]

-- What holds of the status all along: the bounds, and the number of active pods so far.
record IsCounted (max n : ℤ) (s : SubsetStatus) : Type 0 where
  within : IsWithin max s.missing_replicas
  replicas : s.replicas ≡ n

zero-add : (k : ℕ) → pos 0 +ℤ pos k ≡ pos k
zero-add k = grind int_laws

at_start : (max : ℤ) → IsWithin max max
at_start (pos n) = omega arith
at_start (negsuc n) = refl

add-zero : (n : ℤ) → n +ℤ pos 0 ≡ n
add-zero n = grind int_laws

add-pos : (n : ℤ) (a b : ℕ) → (n +ℤ pos a) +ℤ pos b ≡ n +ℤ pos (a + b)
add-pos n a b = grind int_laws

count_pod-IsCounted :
    (key : String) (max now : ℤ) (old : Assoc ℤ) (pod : Pod) (n : ℤ) (c : Counting)
    → IsCounted max n c.status
    → IsCounted max (n +ℤ pos (to_ℕ pod.active)) (count_pod key max now old pod c).status
unfolding count_pod
count_pod-IsCounted key max now old pod n c h = elim (Bool-cases pod.active) [
  | inl on ↦ simp on (counted (less_one-IsWithin max c.status h.within) _)
  | inr off ↦ simp off (record { within = h.within; replicas = h.replicas ∙ sym (add-zero n) })
]
  where
    counted :
        IsWithin max (less_one c.status).missing_replicas
        → (id : String)
        → IsCounted max
            (n +ℤ pos 1)
            (count_active key max now old pod
              (record c { old_creating = erase id c.old_creating })).status
    counted k id =
        let start : Counting = record c {
          status = less_one (record c.status { replicas = c.status.replicas +ℤ pos 1 });
          old_creating = erase id c.old_creating;
        } in
        let (within, same) =
          count_deletion-IsWithin key max now pod start (lookup pod.name old) k in
        record { within = within; replicas = same ∙ ap (λ (m : ℤ). m +ℤ pos 1) h.replicas }

count_pods-IsCounted :
    (key : String) (max now : ℤ) (old : Assoc ℤ) (pods : List Pod) (n : ℤ) (c : Counting)
    → IsCounted max n c.status
    → IsCounted max
        (n +ℤ pos (count (λ p. p.active) pods))
        (count_pods key max now old pods c).status
unfolding count_pods
count_pods-IsCounted key max now old [] n c h = rw (add-zero n) h
count_pods-IsCounted key max now old (pod ∷ pods) n c h =
    rw (← add-pos n (to_ℕ pod.active) (count (λ p. p.active) pods)) (
      count_pods-IsCounted key max now old pods (n +ℤ pos (to_ℕ pod.active)) _
        (count_pod-IsCounted key max now old pod n c h))

count_creations-IsCounted :
    (key : String) (max now : ℤ) (rest : Assoc ℤ) (n : ℤ) (c : Counting)
    → IsCounted max n c.status
    → IsCounted max n (count_creations key now rest c).status
unfolding count_creations
count_creations-IsCounted key max now [] n c h = h
count_creations-IsCounted key max now ((id, time) ∷ rest) n c h =
    count_creations-IsCounted key max now rest n _ (at (is_over (time +ℤ create_pod_timeout) now))
  where
    at :
        (b : Bool)
        → IsCounted max n
            (if b then c else record c {
              status =
                  less_one
                    (record c.status { creating_pods = insert id time c.status.creating_pods });
              requeue = push c.requeue key ((time +ℤ create_pod_timeout) -ℤ now);
            }).status
    at true = h
    at false = record { within = less_one-IsWithin max c.status h.within; replicas = h.replicas }

-- Whatever the pods and whatever was noted: a recount reports as many replicas as there are active
-- pods. Where the subset has a maximum that is not negative, from 0 to as many are missing; where it
-- has none, -1 are.
pub calculate_subset_status-IsCounted :
    (key : String) (now : ℤ) (name : String) (max : ℤ) (old : Option SubsetStatus) (pods : List Pod)
    (requeue : DurationStore)
    → let s = (calculate_subset_status key now name max old pods requeue).status in
      IsWithin max s.missing_replicas × (s.replicas ≡ pos (count (λ p. p.active) pods))
unfolding calculate_subset_status
calculate_subset_status-IsCounted key now name max old pods requeue =
    let start : Counting = record {
      status = fresh name max;
      old_creating = old_creating_of old;
      requeue = requeue;
    } in
    let counted =
      count_pods-IsCounted key max now (old_deleting_of old) pods (pos 0) start
        (record { within = at_start max; replicas = refl }) in
    let all =
      count_creations-IsCounted key max now
        (count_pods key max now (old_deleting_of old) pods start).old_creating _ _ counted in
    (all.within, all.replicas ∙ zero-add (count (λ p. p.active) pods))
