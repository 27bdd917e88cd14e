-- ===== src/Util/Batch/ByIndex.antt =====
-- `SlowStartBatch` of pkg/util/tools.go, which goes by the index where `DoItSlowly` of
-- pkg/controller/cloneset/utils/cloneset_utils.go is given a function that takes the next item.
use kruise.Prelude.{
  ℕ, zero, suc, ◌+◌, ◌-◌, ◌*◌, ◌≤◌, ◌≡◌, refl, ap, Bool, true, false, not, List, [], ◌∷◌,
  if◌then◌else◌, ltb, length, take, drop, arith,
}
use Prim.Native.Nat.{min}
use kruise.Util.Batch.{BatchResult, run_batch, batches, do_it_slowly}

pub record IndexResult {κ} (S : Type κ) : Type κ where
  pub state : S
  pub successes : ℕ
  pub failed : Bool

-- The numbers of `n` items from `i` on.
abbrev pub indexes : ℕ → ℕ → List ℕ
indexes zero i = []
indexes (suc n) i = i ∷ indexes n (i + 1)

length-indexes : (n i : ℕ) → length (indexes n i) ≡ n
length-indexes zero i = refl
length-indexes (suc n) i = ap suc (length-indexes n (i + 1))

take-indexes : (k n i : ℕ) → k ≤ n → take k (indexes n i) ≡ indexes k i
take-indexes zero n i h = refl
take-indexes (suc k) zero i h = absurd (omega (arith, h))
take-indexes (suc k) (suc n) i h = ap (◌∷◌ i) (take-indexes k n (i + 1) (omega (arith, h)))

drop-indexes : (k n i : ℕ) → k ≤ n → drop k (indexes n i) ≡ indexes (n - k) (i + k)
drop-indexes zero n i h =
    let same : n - 0 ≡ n = omega arith in let here : i + 0 ≡ i = omega arith in rw (same, here) refl
drop-indexes (suc k) zero i h = absurd (omega (arith, h))
drop-indexes (suc k) (suc n) i h =
    let less : suc n - suc k ≡ n - k = omega arith in
    let next : i + suc k ≡ i + 1 + k = omega arith in
    rw (less, next) (drop-indexes k n (i + 1) (omega (arith, h)))

module _ {κ} {S : Type κ} (call : ℕ → S → S × Bool) where
  -- A batch of calls from an index on, and how many of them succeed.
  unfoldable pub run_indexes : ℕ → ℕ → S → S × ℕ
  run_indexes zero i s = (s, 0)
  run_indexes (suc n) i s =
      let (s', ok) = call i s in
      let (s'', k) = run_indexes n (i + 1) s' in (s'', if ok then suc k else k)

  -- The loop, with the successes so far, the index, the size of the batch, and what remains.
  index_batches : ℕ → ℕ → ℕ → ℕ → ℕ → S → IndexResult S
  index_batches zero successes index size remaining s = record {
    state = s;
    successes = successes;
    failed = false;
  }
  index_batches (suc fuel) successes index size remaining s =
      let (s', n) = run_indexes size index s in
      let left = remaining - size in
      let next = index_batches fuel (successes + n) (index + size) (min (2 * size) left) left s' in
      if not (ltb 0 size)
      then record { state = s; successes = successes; failed = false }
      else if ltb n size
      then record { state = s'; successes = successes + n; failed = true }
      else next

  -- A round for each item, and one more.
  unfoldable pub slow_start_batch : ℕ → ℕ → S → IndexResult S
  unfolding index_batches
  slow_start_batch count initial s = index_batches (suc count) 0 0 (min count initial) count s

  abbrev pub IsSame : IndexResult S → BatchResult ℕ S → Type κ
  IsSame a b = (a.state ≡ b.state) × (a.successes ≡ b.successes) × (a.failed ≡ b.failed)

  run_batch-run_indexes : (n i : ℕ) (s : S) → run_batch call (indexes n i) s ≡ run_indexes n i s
  unfolding run_batch run_indexes
  run_batch-run_indexes zero i s = refl
  run_batch-run_indexes (suc n) i s = rw (run_batch-run_indexes n (i + 1) (call i s).0) refl

  pick :
      (a b : Bool) (x y z : IndexResult S) (x' y' z' : BatchResult ℕ S)
      → IsSame x x'
      → IsSame y y'
      → IsSame z z'
      → IsSame (if a then x else if b then y else z) (if a then x' else if b then y' else z')
  pick true b x y z x' y' z' h k l = h
  pick false true x y z x' y' z' h k l = k
  pick false false x y z x' y' z' h k l = l

  batches-IsSame :
      (fuel successes index size remaining : ℕ) (s : S)
      → size ≤ remaining
      → IsSame
          (index_batches fuel successes index size remaining s)
          (batches call fuel successes size (indexes remaining index) s)
  unfolding batches index_batches
  batches-IsSame zero successes index size remaining s h = (refl, refl, refl)
  batches-IsSame (suc fuel) successes index size remaining s h =
      rw
        (
          take-indexes size remaining index h,
          drop-indexes size remaining index h,
          run_batch-run_indexes size index s,
          length-indexes size index,
          length-indexes (remaining - size) (index + size),
        )
        (pick (not (ltb 0 size)) (ltb (run_indexes size index s).1 size) _ _ _ _ _ _
          (refl, refl, refl) (refl, refl, refl)
          (batches-IsSame fuel (successes + (run_indexes size index s).1) (index + size)
            (min (2 * size) (remaining - size)) (remaining - size) (run_indexes size index s).0
            (omega arith)))

  -- Whatever the calls do: the slow start by index leaves the same state, counts as many successes
  -- and tells as well whether a call failed as the one that is given the indexes one after the other.
  pub slow_start_batch-do_it_slowly :
      (count initial : ℕ) (s : S)
      → IsSame (slow_start_batch count initial s) (do_it_slowly call (indexes count 0) initial s)
  unfolding slow_start_batch do_it_slowly
  slow_start_batch-do_it_slowly count initial s =
      rw (length-indexes count 0)
        (batches-IsSame (suc count) 0 0 (min count initial) count s (omega arith))
