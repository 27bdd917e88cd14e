-- ===== src/Util/Batch.antt =====
-- The slow start of pkg/util/tools.go (`SlowStartBatch`) and of
-- pkg/controller/cloneset/utils/cloneset_utils.go (`DoItSlowly`): calls are made in batches, each
-- up to twice the one before, until one of them has a failure. The calls of a batch run at the same
-- time, and each changes the state at once: they are taken in the order of the items, which stands
-- for whatever order they come in.
pub mod SlowStart
pub mod Invariant
pub mod ByIndex
mod Examples
use kruise.Prelude.{
  ℕ, zero, suc, ◌+◌, ◌-◌, ◌*◌, Bool, true, false, not, List, [], ◌∷◌, if◌then◌else◌, ◌==◌, ltb,
  length, take, drop,
}
use Prim.Native.Nat.{min}

pub record BatchResult {ℓ κ} (A : Type ℓ) (S : Type κ) : Type (ℓ ⊔ κ) where
  pub state : S
  pub successes : ℕ
  pub failed : Bool
  -- The items whose call was never made.
  pub untried : List A

module _ {ℓ κ} {A : Type ℓ} {S : Type κ} (call : A → S → S × Bool) where
  -- The state after the calls of one batch, and how many of them succeed.
  unfoldable pub run_batch : List A → S → S × ℕ
  run_batch [] s = (s, 0)
  run_batch (x ∷ xs) s =
      let (s', ok) = call x s in let (s'', n) = run_batch xs s' in (s'', if ok then suc n else n)

  -- The loop, with the successes so far, the size of the batch, and the items that remain.
  batches : ℕ → ℕ → ℕ → List A → S → BatchResult A S
  batches zero successes size xs s = record {
    state = s;
    successes = successes;
    failed = false;
    untried = xs;
  }
  batches (suc fuel) successes size xs s =
      let batch = take size xs in
      let rest = drop size xs in
      let (s', n) = run_batch batch s in
      let next = batches fuel (successes + n) (min (2 * size) (length rest)) rest s' in
      if not (ltb 0 size)
      then record { state = s; successes = successes; failed = false; untried = xs }
      else if ltb n (length batch)
      then record { state = s'; successes = successes + n; failed = true; untried = rest }
      else next

  -- Every round makes a call, so that as many rounds as there are items, and one more, suffice.
  unfoldable pub do_it_slowly : List A → ℕ → S → BatchResult A S
  unfolding batches
  do_it_slowly xs initial s = batches (suc (length xs)) 0 (min (length xs) initial) xs s
