-- ===== src/CloneSet/Writes/Ledger.antt =====
-- The expectations are a ledger of what was sent: for each name, the answer to the last attempt.
use kruise.Prelude.{
  ◌≡◌, ◌∙◌, String, str_eq, Bool, true, false, ◌&&◌, List, [], ◌∷◌, arith, if◌then◌else◌,
}
use kruise.Expectations.Scale
use kruise.Expectations.Scale.{ScaleAction, expect_scale, observe_scale}
use kruise.Expectations.Scale.Pending.{pending, same, pending-expect_scale, pending-observe_scale}
use kruise.CloneSet.Writes.{Attempt, Written, attempt}

-- Whether a name is awaited after the attempts of `log`, if it was awaited before as `base` says: the
-- last attempt at it decides.
abbrev pub last_accepted : ScaleAction → String → Bool → List Attempt → Bool
last_accepted action name base [] = base
last_accepted action name base (a ∷ log) =
    if str_eq a.action action && str_eq a.name name
    then a.accepted
    else last_accepted action name base log

-- With what was pending in `cache` before the attempts of `log`: what the controller awaits is
-- exactly what was accepted, and the other controllers await what they did.
abbrev pub IsLedger : String → Scale.Cache → Written → Type 0
IsLedger key cache w =
    (c a n : String)
    → pending w.scale c a n ≡ (
        if str_eq key c then last_accepted a n (pending cache c a n) w.log else pending cache c a n)

-- What an attempt at `name` makes of one triple, with the answer `ok`.
ledger_step :
    (key action name c a n : String) (ok before accepted base : Bool)
    → before ≡ (if str_eq key c then accepted else base)
    → (if same key action name c a n then ok else before)
      ≡ (if str_eq key c then (if str_eq action a && str_eq name n then ok else accepted) else base)
ledger_step key action name c a n ok before accepted base h = ground arith

expect_then_observe :
    (cache : Scale.Cache) (key action name c a n : String)
    → pending (observe_scale (expect_scale cache key action name) key action name) c a n
      ≡ (if same key action name c a n then false else pending cache c a n)
expect_then_observe cache key action name c a n =
    pending-observe_scale (expect_scale cache key action name) key action name c a n
    ∙ ground (arith, pending-expect_scale cache key action name c a n)

-- One attempt makes the answer what is pending of that triple.
pub pending-attempt :
    (key action name : String) (ok : Bool) (w : Written) (c a n : String)
    → pending (attempt key action name ok w).scale c a n
      ≡ (if same key action name c a n then ok else pending w.scale c a n)
unfolding attempt
pending-attempt key action name true w c a n = pending-expect_scale w.scale key action name c a n
pending-attempt key action name false w c a n = expect_then_observe w.scale key action name c a n

pub attempt-IsLedger :
    (key : String) (cache : Scale.Cache) (action name : String) (ok : Bool) (w : Written)
    → IsLedger key cache w
    → IsLedger key cache (attempt key action name ok w)
unfolding attempt
attempt-IsLedger key cache action name ok w h c a n =
    pending-attempt key action name ok w c a n
    ∙ ledger_step key action name c a n ok _ _ _ (h c a n)
