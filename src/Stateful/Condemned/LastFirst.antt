-- ===== src/Stateful/Condemned/LastFirst.antt =====
-- The condemned pod that goes has the greatest ordinal.
use kruise.Prelude.{
  ℕ, ◌-◌, ◌≡◌, ◌⊎◌, inl, inr, ap, ◌∙◌, true, false, Option, List, [], ◌∷◌, ◌++◌, arith, All,
  Bool-cases, length,
}
use mathlib.Core.Path.{subst}
use kruise.Prelude.Int.{◌≤ℤ◌}
use kruise.Stateful.Types.{Pod, Sent, ordinal}
use kruise.Stateful.Pass.{Pass, Run, monotonic}
use kruise.Stateful.Replicas.{Looped, over}
use kruise.Stateful.Replicas.Ordered.{run_of}
use kruise.Stateful.Condemned.{reverse_onto, terminate_condemned, is_at}
use kruise.Stateful.Condemned.OneByOne.{
  OneByOne, available, IsSentFor, terminate_condemned-OneByOne,
}

-- Every ordinal is at most the one of the pod.
abbrev pub IsLast : Pod → List Pod → Type 0
IsLast pod pods = All (λ q. ordinal q ≤ℤ ordinal pod) pods

-- The order in which `sort.Sort(ascendingOrdinal(condemned))` leaves the pods.
abbrev pub IsAscending : List Pod → Type 0
IsAscending [] = Unit
IsAscending (c ∷ cs) = All (λ q. ordinal c ≤ℤ ordinal q) cs × IsAscending cs

-- The first of the pods, if there is one, is the last by ordinal.
abbrev IsDescendingAt : List Pod → Type 0
IsDescendingAt [] = Unit
IsDescendingAt (a ∷ rest) = IsLast a (a ∷ rest)

both-IsLast :
    (c : Pod) (acc cs : List Pod)
    → All (λ q. ordinal c ≤ℤ ordinal q) cs
    → All (λ q. IsLast q acc) cs
    → All (λ q. IsLast q (c ∷ acc)) cs
both-IsLast c acc [] h k = tt
both-IsLast c acc (q ∷ qs) h k = ((h.0, k.0), both-IsLast c acc qs h.1 k.1)

top-IsLast :
    (pod : Pod) (after acc : List Pod) → IsDescendingAt acc → acc ≡ pod ∷ after → IsLast pod acc
top-IsLast pod after [] top e = cc
top-IsLast pod after (a ∷ rest) top e =
    let same : a ≡ pod = ground (arith, e) in subst (λ x. IsLast x (a ∷ rest)) same top

reverse_onto-IsLast :
    (pod : Pod) (after cs acc : List Pod)
    → IsAscending cs
    → All (λ q. IsLast q acc) cs
    → IsDescendingAt acc
    → reverse_onto cs acc ≡ pod ∷ after
    → IsLast pod cs × IsLast pod acc
reverse_onto-IsLast pod after [] acc h k top e = (tt, top-IsLast pod after acc top e)
reverse_onto-IsLast pod after (c ∷ cs) acc h k top e =
    let (rest, (here, seen)) =
      reverse_onto-IsLast pod after cs (c ∷ acc) h.1 (both-IsLast c acc cs h.0 k.1)
        (omega arith, k.0) e in
    ((here, rest), seen)

nothing-IsLast : (cs : List Pod) → All (λ q. IsLast q []) cs
nothing-IsLast [] = tt
nothing-IsLast (c ∷ cs) = (tt, nothing-IsLast cs)

-- Nothing was sent, or the pass is over with one pod on its way, which was not terminating. With the
-- policy OrderedReady no condemned pod has a greater ordinal, and it is available or the unhealthy
-- one that may go.
pub data LastFirst (p : Pass) (first : Option ℕ) (condemned : List Pod) (log : List Sent)
    : Looped → Type 0 where
  nothing_sent : (l : Looped) → (run_of l).log ≡ log → LastFirst p first condemned log l
  one_sent :
      (r : Run) (before : List Pod) (pod : Pod) (after : List Pod)
      → reverse_onto condemned [] ≡ before ++ pod ∷ after
      → pod.terminating ≡ false
      → (monotonic p ≡ false)
        ⊎ (IsLast pod condemned
            × ((available p pod ≡ true) ⊎ (is_at (length condemned - 1) first ≡ true)))
      → IsSentFor pod log r.log
      → LastFirst p first condemned log (over false r)

-- Let the condemned pods stand in the order of their ordinals, as the sort before the loop leaves
-- them. Whatever the API server answers, and with either policy: the loop over them from the last on
-- sends nothing, or deletes one of them that was not terminating, or moves it to PreparingDelete, and
-- the pass is over. With the policy OrderedReady no condemned pod has a greater ordinal than that
-- pod, and it is available or the unhealthy one that may go.
pub terminate_condemned-LastFirst :
    (p : Pass) (first : Option ℕ) (condemned : List Pod) (r : Run)
    → IsAscending condemned
    → LastFirst p first condemned r.log
        (terminate_condemned p first (reverse_onto condemned []) (length condemned - 1) r)
terminate_condemned-LastFirst p first condemned r sorted =
    at _ (terminate_condemned-OneByOne p first (reverse_onto condemned []) (length condemned - 1) r)
  where
    at :
        (l : Looped)
        → OneByOne p first (reverse_onto condemned []) (length condemned - 1) r.log l
        → LastFirst p first condemned r.log l
    at l (OneByOne.nothing_sent _ same) = nothing_sent l same
    at l (OneByOne.one_sent r' before pod after split live may sent) =
        one_sent r' before pod after split live
          (elim (Bool-cases (monotonic p)) [
            | inr eager ↦ inl eager
            | inl ordered ↦
                let (front, goes) = may ordered in
                let there : reverse_onto condemned [] ≡ pod ∷ after =
                  split ∙ ap (λ b. b ++ pod ∷ after) front in
                inr (
                  (reverse_onto-IsLast pod after condemned [] sorted (nothing-IsLast condemned) tt
                      there).0,
                  goes,
                )
          ])
          sent
