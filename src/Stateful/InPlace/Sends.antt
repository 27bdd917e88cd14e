-- ===== src/Stateful/InPlace/Sends.antt =====
-- The pods for which `inPlaceUpdatePod` sends something.
use kruise.Prelude.{
  ◌≡◌, refl, ap, sym, ◌∙◌, String, Bool, true, false, Option, none, some, List, [], ◌∷◌, ◌++◌, All,
  All-append, if◌then◌else◌,
}
use mathlib.Core.List.{append_assoc}
use kruise.Prelude.Assoc.{Names, has}
use kruise.Util.LifecycleState
use kruise.CloneSet.Writes.{LifecycleUpdate, failed, unchanged, updated}
use kruise.Stateful.Types.{
  Pod, PodUpdatePolicy, RollingUpdate, Sent, creates, deletes, moves, updates, claims, in_place,
  InPlaceUpdate, not_in_place, update_error, stored,
}
use kruise.Stateful.Pass.{Pass, Run}
use kruise.Stateful.InPlace
use kruise.Stateful.InPlace.{
  InPlacing, fails, answers, carried_out, back_off, in_place_update_pod, update_in_place, by_policy,
}

abbrev pub name_of : Sent → String
name_of (creates pod) = pod.meta.name
name_of (deletes pod) = pod.meta.name
name_of (moves pod state) = pod.meta.name
name_of (updates pod) = pod.meta.name
name_of (claims pod) = pod.meta.name
name_of (in_place pod) = pod.meta.name

-- What was sent between two logs is all for pods of the names.
abbrev pub SentFor : Names → List Sent → List Sent → Type 0
SentFor names log log' =
    (sent : List Sent) × (log' ≡ sent ++ log) × All (λ s. has (name_of s) names ≡ true) sent

pub nothing : (names : Names) (log : List Sent) → SentFor names log log
nothing names log = ([], refl, tt)

pub one :
    (names : Names) (s : Sent) (log : List Sent)
    → has (name_of s) names ≡ true
    → SentFor names log (s ∷ log)
one names s log h = (s ∷ [], refl, (h, tt))

unfoldable pub InPlacingFor : Names → List Sent → InPlacing → Type 0
InPlacingFor names log (fails r) = r.log ≡ log
InPlacingFor names log (answers b r) = SentFor names log r.log

pub SentFor-then :
    (names : Names) {log log' log'' : List Sent}
    → SentFor names log log'
    → SentFor names log' log''
    → SentFor names log log''
SentFor-then names (sent, same, h) (sent', same', h') = (
  sent' ++ sent,
  same' ∙ ap (◌++◌ sent') same ∙ sym (append_assoc sent' sent _),
  All-append (λ s. has (name_of s) names ≡ true) sent' sent h' h,
)

module _ (p : Pass) (pod : Pod) (names : Names) (known : has pod.meta.name names ≡ true) where
  back_off-For : (r : Run) (policy : PodUpdatePolicy) → InPlacingFor names r.log (back_off r policy)
  unfolding InPlacingFor
  back_off-For r PodUpdatePolicy.in_place_only = refl
  back_off-For r PodUpdatePolicy.in_place_if_possible = nothing names r.log
  back_off-For r PodUpdatePolicy.recreate = nothing names r.log

  carried_out-For :
      (r : Run) (policy : PodUpdatePolicy) (u : InPlaceUpdate)
      → InPlacingFor names r.log (carried_out p pod r policy u)
  unfolding InPlacingFor
  carried_out-For r policy not_in_place = back_off-For r policy
  carried_out-For r policy (update_error delay) = refl
  carried_out-For r policy (stored delay) = one names (in_place pod) r.log known

  prepared-For :
      (r : Run) (u : LifecycleUpdate) → InPlacingFor names r.log (InPlace.prepared pod r u)
  unfolding InPlacingFor
  prepared-For r failed = refl
  prepared-For r unchanged = nothing names r.log
  prepared-For r (updated got) = one names (moves pod LifecycleState.preparing_update) r.log known

  either :
      (log : List Sent) (b : Bool) (x y : InPlacing)
      → InPlacingFor names log x
      → InPlacingFor names log y
      → InPlacingFor names log (if b then x else y)
  either log true x y h k = h
  either log false x y h k = k

  unchanged-For : (b : Bool) (r : Run) → InPlacingFor names r.log (answers b r)
  unfolding InPlacingFor
  unchanged-For b r = nothing names r.log

  fails-For : (r : Run) → InPlacingFor names r.log (fails r)
  unfolding InPlacingFor
  fails-For r = refl

  update_in_place-For :
      (policy : PodUpdatePolicy) (r : Run)
      → InPlacingFor names r.log (update_in_place p policy pod r)
  unfolding update_in_place
  update_in_place-For policy r =
      search (either, prepared-For, carried_out-For, unchanged-For, fails-For)

  by_policy-For :
      (policy : PodUpdatePolicy) (r : Run) → InPlacingFor names r.log (by_policy p policy pod r)
  by_policy-For PodUpdatePolicy.recreate r = unchanged-For false r
  by_policy-For PodUpdatePolicy.in_place_if_possible r =
      either r.log _ _ _ (update_in_place-For _ r)
        (back_off-For r PodUpdatePolicy.in_place_if_possible)
  by_policy-For PodUpdatePolicy.in_place_only r =
      either r.log _ _ _ (update_in_place-For _ r) (back_off-For r PodUpdatePolicy.in_place_only)

  pub in_place_update_pod-For : (r : Run) → InPlacingFor names r.log (in_place_update_pod p pod r)
  unfolding in_place_update_pod
  in_place_update_pod-For r = from p.set.rolling_update refl
    where
      from :
          (o : Option RollingUpdate)
          → p.set.rolling_update ≡ o
          → InPlacingFor names r.log (in_place_update_pod p pod r)
      from none e = rw (e, in_place_update_pod) (unchanged-For false r)
      from (some u) e = rw (e, in_place_update_pod) (by_policy-For u.pod_update_policy r)
