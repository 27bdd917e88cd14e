-- ===== src/Util/Requeue/Examples.antt =====
-- Runs of the store of durations, and the theorems at them.
use kruise.Prelude.{◌≡◌, refl, []}
use kruise.Prelude.Int.{pos}
use kruise.Util.Requeue.{update, push, pop}

shortest : (pop (push (push (push [] "cs" (pos 9)) "cs" (pos 4)) "cs" (pos 7)) "cs").1 ≡ pos 4
unfolding push pop update
shortest = refl
