-- ===== src/Stateful/Rolling/Unavailable.antt =====
-- The pods that count as unavailable in a rolling update.
use kruise.Prelude.{
  ℕ, ◌+◌, ◌≤◌, ◌≡◌, ◌⊎◌, inl, inr, refl, sym, ◌∙◌, String, Bool, true, false, ◌&&◌, Option, none,
  some, List, [], ◌∷◌, arith, length, if◌then◌else◌,
}
use kruise.Prelude.Int.{ℤ, pos, pos_part}
use kruise.Prelude.Assoc.{Names, has, add}
use kruise.Stateful.Types.{Pod, Sent, is_healthy, is_running_and_available}
use kruise.Stateful.Pass.{Pass, Run, get_min_ready_seconds, push_after}
use kruise.Stateful.Rolling.{
  update_targets, find_unavailable, update_with_maximum, sort_pods_to_update, max_min_ready,
}
use kruise.Stateful.InPlace.Sends.{SentFor}
use kruise.Stateful.Rolling.Within.{Ends, update_targets-IsWithin, has-more, has-new, length-add}
use kruise.Stateful.Rolling.Targets.{OnlyReorders, sort_pods_to_update-HasPod}

-- A replica that is healthy, whose update in place is carried out, and that is available.
abbrev pub serves : Pass → Pod → Bool
serves p pod =
    (is_healthy pod && p.world.is_update_completed pod)
    && (is_running_and_available (pos p.world.now) (get_min_ready_seconds p.set) pod).0

-- The replicas that do not serve.
abbrev pub idle : Pass → List (Option Pod) → ℕ
idle p [] = 0
idle p (none ∷ rest) = idle p rest
idle p (some pod ∷ rest) = (if serves p pod then 0 else 1) + idle p rest

abbrev pub Knows : Pass → Names → List (Option Pod) → Type 0
Knows p names [] = Unit
Knows p names (none ∷ rest) = Knows p names rest
Knows p names (some pod ∷ rest) =
    ((serves p pod ≡ false) → has pod.meta.name names ≡ true) × Knows p names rest

Knows-more :
    (p : Pass) (names names' : Names) (rs : List (Option Pod))
    → ((k : String) → has k names ≡ true → has k names' ≡ true)
    → Knows p names rs
    → Knows p names' rs
Knows-more p names names' [] more h = tt
Knows-more p names names' (none ∷ rs) more h = Knows-more p names names' rs more h
Knows-more p names names' (some pod ∷ rs) more h =
    (λ e. more pod.meta.name (h.0 e), Knows-more p names names' rs more h.1)

-- What the search for unavailable replicas finds.
record Found (p : Pass) (rs : List (Option Pod)) (names : Names) (r : Run) (o : Names × Run)
    : Type 0 where
  few : length o.0 ≤ length names + idle p rs
  more : (k : String) → has k names ≡ true → has k o.0 ≡ true
  knows : Knows p o.0 rs
  same_log : o.1.log ≡ r.log

find_unavailable-Found :
    (p : Pass) (rs : List (Option Pod)) (names : Names) (min : ℤ) (r : Run)
    → Found p rs names r (find_unavailable p rs names min r)
unfolding find_unavailable
find_unavailable-Found p [] names min r = record {
  few = omega arith;
  more = λ k h. h;
  knows = tt;
  same_log = refl;
}
find_unavailable-Found p (none ∷ rest) names min r =
    let ih = find_unavailable-Found p rest names min r in
    record { few = ih.few; more = ih.more; knows = ih.knows; same_log = ih.same_log }
find_unavailable-Found p (some pod ∷ rest) names min r =
    from (serves p pod) refl _ (log-push _ _) (find_unavailable-Found p rest _ _ _)
  where
    log-push : (b : Bool) (delay : ℤ) → (if b then push_after p.key delay r else r).log ≡ r.log
    log-push true delay = refl
    log-push false delay = refl

    from :
        (b : Bool)
        → serves p pod ≡ b
        → (r' : Run) → r'.log ≡ r.log
        → {o : Names × Run} → Found p rest (if b then names else add pod.meta.name names) r' o
        → Found p (some pod ∷ rest) names r o
    from true e r' same h = record {
      few = rw e (omega (arith, h.few));
      more = h.more;
      knows = ((λ off. cc), h.knows);
      same_log = h.same_log ∙ same;
    }
    from false e r' same h = record {
      few = rw e (omega (arith, h.few, length-add pod.meta.name names));
      more = λ k known. h.more k (has-more k pod.meta.name names known);
      knows = ((λ off. h.more pod.meta.name (has-new pod.meta.name names)), h.knows);
      same_log = h.same_log ∙ same;
    }

-- Where a rolling update comes to its targets.
pub record IsSafe (p : Pass) (max : ℕ) (replicas : List (Option Pod)) (log log' : List Sent)
    : Type 0 where
  pub unavailable : Names
  pub within : (length unavailable ≤ max) ⊎ (length unavailable ≤ idle p replicas)
  pub knows : Knows p unavailable replicas
  pub sent_for : SentFor unavailable log log'

abbrev pub EndsSafe : Pass → ℕ → List (Option Pod) → List Sent → Option (Run × Bool) → Type 0
EndsSafe p max replicas log none = ⊥
EndsSafe p max replicas log (some (r, error)) = IsSafe p max replicas log r.log

-- If the sort by priority only reorders: a rolling update comes to an end without a fault, and
-- whatever the API server and the in-place update answer, there is a set of unavailable pods with all
-- replicas in it that do not serve, and all pods that were touched; it is no larger than the maximum,
-- or than the number of the replicas that did not serve.
pub update_with_maximum-IsSafe :
    (p : Pass)
    → OnlyReorders p
    → (max : ℤ) (r : Run) → EndsSafe p (pos_part max) r.replicas r.log (update_with_maximum p max r)
unfolding update_with_maximum
update_with_maximum-IsSafe p only max r =
    safe (find_unavailable p r.replicas [] max_min_ready r)
      (find_unavailable-Found p r.replicas [] max_min_ready r)
  where
    ends :
        (names : Names) (r' : Run)
        → Found p r.replicas [] r (names, r')
        → (o : Option (Run × Bool)) → Ends (pos_part max) names r'.log o
        → EndsSafe p (pos_part max) r.replicas r.log o
    ends names r' f none h = h
    ends names r' f (some (r'', error)) h = record {
      unavailable = h.unavailable;
      within = elim h.within [ inl few ↦ inl few | inr same ↦ inr (omega (arith, same, f.few)) ];
      knows = Knows-more p names h.unavailable r.replicas h.kept f.knows;
      sent_for = rw (sym f.same_log) h.sent_for;
    }

    safe :
        (o : Names × Run)
        → Found p r.replicas [] r o
        → EndsSafe p (pos_part max) r.replicas r.log (
            update_targets p max r.replicas
              (sort_pods_to_update p p.set.rolling_update r.replicas)
              o.0
              o.1)
    safe (names, r') f = ends names r' f _ (
        update_targets-IsWithin p max r.replicas _ names r'
          (sort_pods_to_update-HasPod p only p.set.rolling_update r.replicas))
