-- ===== src/CloneSet/Limit/Examples.antt =====
-- Runs of the limit, and the theorems at them.
use kruise.Prelude.{ℕ, ◌≡◌, refl, some, List, [], ◌∷◌, arith}
use kruise.Prelude.Int.{pos}
use kruise.Util.Tools.{int_abs}
use kruise.Util.Pods.{equal_to_revision_hash}
use kruise.CloneSet.Types.{is_pod_available}
use kruise.CloneSet.Samples.{env, old_pods}
use kruise.CloneSet.Diff.{ExpectationDiffs}
use kruise.CloneSet.Diff.Settled.{nothing_to_do}
use kruise.CloneSet.Limit.{limit_update_indexes}
use kruise.CloneSet.Limit.Allowed.{
  IsAllowed, limit_update_indexes-IsAllowed, limit_update_indexes-total,
}

-- Three pods are wanted, and two may be unavailable, of which one already is.
abbrev diff : ExpectationDiffs
diff = record nothing_to_do { update_num = pos 3; update_max_unavailable = pos 2 }

one_may_go :
    limit_update_indexes env (pos 0) old_pods diff (0 ∷ 1 ∷ 2 ∷ []) "cs-new" ≡ some (0 ∷ [])
unfolding limit_update_indexes is_pod_available equal_to_revision_hash int_abs
one_may_go = refl

limit_update_indexes-IsAllowed_example :
    IsAllowed env (pos 0) old_pods diff (0 ∷ 1 ∷ 2 ∷ []) (0 ∷ []) "cs-new"
limit_update_indexes-IsAllowed_example =
    limit_update_indexes-IsAllowed env (pos 0) old_pods diff (0 ∷ 1 ∷ 2 ∷ []) (0 ∷ []) "cs-new"
      one_may_go

limit_update_indexes-total_example :
    (chosen : List ℕ) × (limit_update_indexes env (pos 0) old_pods diff (0 ∷ 1 ∷ 2 ∷ []) "cs-new"
      ≡ some chosen)
limit_update_indexes-total_example =
    limit_update_indexes-total env (pos 0) old_pods diff (0 ∷ 1 ∷ 2 ∷ []) "cs-new" (omega arith)
