-- ===== src/Stateful/Control/Monotonic.antt =====
-- The policy OrderedReady, over the replicas and the condemned pods.
use kruise.Prelude.{
  ℕ, ◌≡◌, ◌⊎◌, inl, inr, refl, sym, Bool, true, false, Option, none, some, List, [], ◌∷◌, arith,
  Bool-cases,
}
use kruise.Stateful.Types.{Pod, Sent, claims}
use kruise.Stateful.Pass.{Pass, Run, monotonic}
use kruise.Stateful.Tally.{Tally}
use kruise.Stateful.Replicas.{Looped, over, through, visit_replicas}
use kruise.Stateful.Replicas.Ordered.{
  run_of, IsQuiet, IsOneStep, AllServe, InOrder, all_serve, stops, visit_replicas-InOrder,
}
use kruise.Stateful.Condemned.{match_claims, match_condemned_claims}
use kruise.Stateful.Condemned.OneByOne.{
  OneByOne, nothing_sent, one_sent, terminate_condemned-OneByOne,
}
use kruise.Stateful.Control.{scale_pods, then_terminate, then_claims}

match_claims-IsQuiet :
    (p : Pass) (pods : List Pod) (r : Run) → IsQuiet r.log (run_of (match_claims p pods r)).log
unfolding match_claims
match_claims-IsQuiet p [] r = (refl, refl)
match_claims-IsQuiet p (pod ∷ pods) r =
    at (p.world.claims_match_retention_policy pod) refl (match_claims-IsQuiet p pods)
  where
    at :
        (o : Option Bool)
        → p.world.claims_match_retention_policy pod ≡ o
        → ((r' : Run) → IsQuiet r'.log (run_of (match_claims p pods r')).log)
        → IsQuiet r.log (run_of (match_claims p (pod ∷ pods) r)).log
    at none e ih = rw (e, match_claims) (refl, refl)
    at (some true) e ih = rw (e, match_claims) (ih r)
    at (some false) e ih = elim (Bool-cases (p.world.accepts_claims r.log pod)) [
      | inl on ↦
          rw (e, match_claims, on) (omega (arith, ih (record r { log = claims pod ∷ r.log })))
      | inr off ↦ rw (e, match_claims, off) (refl, refl)
    ]

match_condemned_claims-IsQuiet :
    (p : Pass) (pods : List Pod) (r : Run)
    → IsQuiet r.log (run_of (match_condemned_claims p pods r)).log
unfolding match_condemned_claims
match_condemned_claims-IsQuiet p pods r = elim (Bool-cases p.world.auto_delete_pvc) [
  | inl on ↦ rw on (match_claims-IsQuiet p pods r)
  | inr off ↦ rw off (refl, refl)
]

OneByOne-IsOneStep :
    (p : Pass) (first : Option ℕ) (pods : List Pod) (i : ℕ) (log : List Sent) (l : Looped)
    → OneByOne p first pods i log l
    → IsOneStep log (run_of l).log
OneByOne-IsOneStep p first pods i log _ (nothing_sent l same) = rw same (omega arith)
OneByOne-IsOneStep p first pods i log _ (one_sent r before pod after _ _ _ (inl e)) =
    rw e (omega arith)
OneByOne-IsOneStep p first pods i log _ (one_sent r before pod after _ _ _ (inr e)) =
    rw e (omega arith)

then_terminate-IsOneStep :
    (p : Pass) (condemned : List Pod) (replicas : List (Option Pod)) (l : Looped)
    → IsOneStep (run_of l).log (run_of (then_terminate p condemned replicas l)).log
then_terminate-IsOneStep p condemned replicas (over error r) = omega arith
then_terminate-IsOneStep p condemned replicas (through r) =
    OneByOne-IsOneStep p _ _ _ r.log _ (terminate_condemned-OneByOne p _ _ _ r)

-- One pod at most is created and one at most deleted or moved; and as long as not all replicas serve,
-- the condemned pods are left alone.
pub record IsMonotonic (p : Pass) (t : Tally) (r : Run) (l : Looped) : Type 0 where
  pub one_step : IsOneStep r.log (run_of l).log
  pub waits : AllServe p t.replicas ⊎ (l ≡ visit_replicas p 0 t.replicas r)

-- With the policy OrderedReady, whatever is answered: one pass of scaling creates one pod at most, and
-- deletes one at most or moves it to PreparingDelete; and where not all replicas run and are
-- available, it ends with the loop over them: no condemned pod is touched.
pub scale_pods-IsMonotonic :
    (p : Pass) → monotonic p ≡ true → (t : Tally) (r : Run) → IsMonotonic p t r (scale_pods p t r)
unfolding scale_pods
scale_pods-IsMonotonic p ordered t r =
    from (visit_replicas p 0 t.replicas r) refl (visit_replicas-InOrder p ordered 0 t.replicas r)
  where
    ended :
        (log : List Sent) (l : Looped)
        → IsQuiet r.log log
        → IsQuiet log (run_of l).log
        → IsOneStep r.log (run_of (then_terminate p t.condemned t.replicas l)).log
    ended log l q q' = omega (arith, q, q', then_terminate-IsOneStep p t.condemned t.replicas l)

    from :
        (l : Looped)
        → visit_replicas p 0 t.replicas r ≡ l
        → InOrder p t.replicas r.log l
        → IsMonotonic p t r (then_terminate p t.condemned t.replicas (then_claims p t.condemned l))
    from l e (all_serve r' serve q) = record {
      one_step =
          ended r'.log (match_condemned_claims p t.condemned r') q
            (match_condemned_claims-IsQuiet p t.condemned r');
      waits = inl serve;
    }
    from l e (stops error r' before pod after _ _ step) = record {
      one_step = step;
      waits = inr (sym e);
    }
