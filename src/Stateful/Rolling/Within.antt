-- ===== src/Stateful/Rolling/Within.antt =====
-- The maximum of unavailable pods in a rolling update.
use kruise.Prelude.{
  ℕ, ◌+◌, ◌≤◌, ◌≡◌, ◌⊎◌, inl, inr, refl, String, str_eq, str_eq_refl, Bool, true, false, ◌&&◌, not,
  Option, none, some, List, [], ◌∷◌, arith, Bool-cases, All, length, get_elem?, leb,
}
use kruise.Prelude.Int.{ℤ, pos, pos_part, leb_ℤ}
use kruise.Prelude.Assoc.{Names, has, add, has-add}
use kruise.Util.LifecycleState
use kruise.Stateful.Types.{Pod, Sent, deletes, moves, get_pod_revision}
use kruise.Stateful.Pass.{Pass, Run, delete_pod}
use kruise.Stateful.Pass.Log.{delete_pod-Deletes, Deletes, refused, kept, gone, prepared}
use kruise.Stateful.InPlace.{InPlacing, fails, answers, in_place_update_pod}
use kruise.Stateful.InPlace.Sends.{
  name_of, SentFor, nothing, one, InPlacingFor, SentFor-then, in_place_update_pod-For,
}
use kruise.Stateful.Rolling.{
  update_target, update_targets, deleted, after_deletion, counts_current, after_error,
}

abbrev DeletedFor : Names → List Sent → Option (Bool × List Sent) → Type 0
DeletedFor names log none = Unit
DeletedFor names log (some (b, log')) = SentFor names log log'

abbrev TargetFor : Names → List Sent → Option Run → Type 0
TargetFor names log none = Unit
TargetFor names log (some r) = SentFor names log r.log

module _ (p : Pass) (pod : Pod) (names : Names) (known : has pod.meta.name names ≡ true) where
  delete-For :
      (log : List Sent) (o : Option (Bool × List Sent)) → Deletes pod log o → DeletedFor names log o
  delete-For log o refused = tt
  delete-For log o kept = nothing names log
  delete-For log o gone = one names (deletes pod) log known
  delete-For log o prepared = one names (moves pod LifecycleState.preparing_delete) log known

  -- What `update_target` sends, and what is left of an error.
  deleted-For :
      (r : Run) (u : InPlacing)
      → InPlacingFor names r.log u
      → TargetFor names r.log (deleted p pod u) × SentFor names r.log (after_error r u).log
  unfolding InPlacingFor
  deleted-For r (fails r') h = (tt, ([], h, tt))
  deleted-For r (answers true r') h = (h, h)
  deleted-For r (answers false r') h =
      (at (delete_pod p pod r'.log) (delete-For r'.log _ (delete_pod-Deletes p pod r'.log)), h)
    where
      at :
          (o : Option (Bool × List Sent))
          → DeletedFor names r'.log o
          → TargetFor names r.log (after_deletion r' o)
      at none k = tt
      at (some (b, log)) k = SentFor-then names h k

-- The names that count as unavailable at the end: no more than the maximum, or than there were, and
-- those among them for which anything was sent.
pub record IsWithin (max : ℕ) (names : Names) (log log' : List Sent) : Type 0 where
  pub unavailable : Names
  pub within : (length unavailable ≤ max) ⊎ (length unavailable ≤ length names)
  pub kept : (k : String) → has k names ≡ true → has k unavailable ≡ true
  pub sent_for : SentFor unavailable log log'

pub has-more :
    (k name : String) (names : Names) → has k names ≡ true → has k (add name names) ≡ true
has-more k name names h = ground (arith, has-add name k names)

pub has-new : (name : String) (names : Names) → has name (add name names) ≡ true
has-new name names = rw (has-add name name names, str_eq_refl name) refl

pub length-add : (name : String) (names : Names) → length (add name names) ≤ length names + 1
length-add name names = ground arith

SentFor-more :
    (names names' : Names) (log log' : List Sent)
    → ((k : String) → has k names ≡ true → has k names' ≡ true)
    → SentFor names log log'
    → SentFor names' log log'
SentFor-more names names' log log' more (sent, same, h) = (sent, same, all sent h)
  where
    all :
        (xs : List Sent)
        → All (λ s. has (name_of s) names ≡ true) xs
        → All (λ s. has (name_of s) names' ≡ true) xs
    all [] k = tt
    all (x ∷ xs) k = (more (name_of x) k.0, all xs k.1)

-- There is a pod at the place.
abbrev pub HasPod : List (Option Pod) → ℕ → Type 0
HasPod replicas i = (pod : Pod) × (get_elem? replicas i ≡ some (some pod))

-- The loop ends without a fault, with an error or without.
abbrev pub Ends : ℕ → Names → List Sent → Option (Run × Bool) → Type 0
Ends max names log none = ⊥
Ends max names log (some (r, error)) = IsWithin max names log r.log

stays : (max : ℕ) (names : Names) (log : List Sent) → IsWithin max names log log
stays max names log = record {
  unavailable = names;
  within = inr (omega arith);
  kept = λ k h. h;
  sent_for = nothing names log;
}

-- One more target, and then the rest.
one_more :
    (max : ℕ) (pod : Pod) (names : Names) (log log' : List Sent) (o : Option (Run × Bool))
    → ((leb max (length names) && not (has pod.meta.name names)) ≡ false)
    → SentFor (add pod.meta.name names) log log'
    → Ends max (add pod.meta.name names) log' o
    → Ends max names log o
one_more max pod names log log' none free sent h = h
one_more max pod names log log' (some (r, error)) free sent h = record {
  unavailable = h.unavailable;
  within = elim h.within [ inl few ↦ inl few | inr same ↦ ground (arith, free, same) ];
  kept = λ k known. h.kept k (has-more k pod.meta.name names known);
  sent_for =
      SentFor-then h.unavailable
        (SentFor-more (add pod.meta.name names) h.unavailable log log' h.kept sent) h.sent_for;
}

update_target-For :
    (p : Pass) (pod : Pod) (names : Names) (r : Run)
    → TargetFor (add pod.meta.name names) r.log (update_target p pod r)
      × SentFor (add pod.meta.name names) r.log (after_error r (in_place_update_pod p pod r)).log
unfolding update_target
update_target-For p pod names r =
    let known = has-new pod.meta.name names in
    deleted-For p pod (add pod.meta.name names) known r (in_place_update_pod p pod r)
      (in_place_update_pod-For p pod (add pod.meta.name names) known r)

-- Whatever the API server and the in-place update answer, and in whatever order the targets stand: the
-- pods that a rolling update touches are in a set of unavailable ones, which holds all that were
-- unavailable before, and is no larger than the maximum, or than it was.
pub update_targets-IsWithin :
    (p : Pass) (max : ℤ) (replicas : List (Option Pod)) (is : List ℕ) (names : Names) (r : Run)
    → All (HasPod replicas) is
    → Ends (pos_part max) names r.log (update_targets p max replicas is names r)
unfolding update_targets
update_targets-IsWithin p max replicas [] names r h = stays (pos_part max) names r.log
update_targets-IsWithin p max replicas (i ∷ is) names r ((pod, here), rest) =
    at (λ names' r'. update_targets-IsWithin p max replicas is names' r' rest)
  where
    acted :
        ((leb (pos_part max) (length names) && not (has pod.meta.name names)) ≡ false)
        → (o : Option Run)
        → TargetFor (add pod.meta.name names) r.log o
          × SentFor
              (add pod.meta.name names)
              r.log
              (after_error r (in_place_update_pod p pod r)).log
        → ((names' : Names) (r' : Run)
            → Ends (pos_part max) names' r'.log (update_targets p max replicas is names' r'))
        → Ends (pos_part max) names r.log (elim o [
          | none ↦ some (after_error r (in_place_update_pod p pod r), true)
          | some r' ↦
              update_targets p max replicas is (add pod.meta.name names) (counts_current p pod r')
        ])
    acted free none (h, k) ih =
        one_more (pos_part max) pod names r.log (after_error r (in_place_update_pod p pod r)).log
          (some (after_error r (in_place_update_pod p pod r), true)) free k (stays _ _ _)
    acted free (some r') (h, k) ih =
        one_more (pos_part max) pod names r.log r'.log
          (update_targets p max replicas is (add pod.meta.name names) (counts_current p pod r'))
          free h (ih (add pod.meta.name names) (counts_current p pod r'))

    at :
        ((names' : Names) (r' : Run)
          → Ends (pos_part max) names' r'.log (update_targets p max replicas is names' r'))
        → Ends (pos_part max) names r.log (update_targets p max replicas (i ∷ is) names r)
    at ih = elim (Bool-cases (str_eq (get_pod_revision pod) p.update_revision)) [
      | inl new ↦ rw (here, update_targets, new) (ih names r)
      | inr old ↦
          elim (Bool-cases (leb_ℤ max (pos (length names)) && not (has pod.meta.name names))) [
            | inl full ↦ rw (here, update_targets, old, full) (stays (pos_part max) names r.log)
            | inr free ↦ elim (Bool-cases pod.terminating) [
              | inl on ↦ simp (here, update_targets, old, free, on) (ih names r)
              | inr live ↦
                  simp (here, update_targets, old, free, live)
                    (acted (ground (arith, free)) (update_target p pod r)
                      (update_target-For p pod names r) ih)
            ]
          ]
    ]
