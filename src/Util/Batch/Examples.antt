-- ===== src/Util/Batch/Examples.antt =====
-- A run of the slow start, and the theorem at it.
use kruise.Prelude.{ℕ, ◌≡◌, refl, Bool, true, List, [], ◌∷◌, ltb}
use kruise.Util.Batch.{run_batch, do_it_slowly}
use kruise.Util.Batch.ByIndex.{IsSame, indexes, slow_start_batch, slow_start_batch-do_it_slowly}
use kruise.Util.Batch.SlowStart.{IsSlow, do_it_slowly-IsSlow}

-- Calls on items below 5 succeed; the state is the list of the items called, latest first.
abbrev call : ℕ → List ℕ → List ℕ × Bool
call x s = (x ∷ s, ltb x 5)

abbrev items : List ℕ
items = 0 ∷ 1 ∷ 2 ∷ 3 ∷ 4 ∷ 5 ∷ 6 ∷ 7 ∷ 8 ∷ []

third_batch_fails : do_it_slowly call items 1 [] ≡ record {
  state = 6 ∷ 5 ∷ 4 ∷ 3 ∷ 2 ∷ 1 ∷ 0 ∷ [];
  successes = 5;
  failed = true;
  untried = 7 ∷ 8 ∷ [];
}
unfolding do_it_slowly run_batch
third_batch_fails = refl

do_it_slowly-IsSlow_example : IsSlow call items 0 (do_it_slowly call items 1 [])
do_it_slowly-IsSlow_example = do_it_slowly-IsSlow call items []

slow_start_batch-do_it_slowly_example :
    IsSame call (slow_start_batch call 9 1 []) (do_it_slowly call (indexes 9 0) 1 [])
slow_start_batch-do_it_slowly_example = slow_start_batch-do_it_slowly call 9 1 []
