-- ===== src/Util/Batch/SlowStart.antt =====
-- How many calls are made.
use kruise.Prelude.{
  ℕ, zero, suc, ◌+◌, ◌*◌, ◌≤◌, ◌<◌, ◌≡◌, inl, inr, Bool, true, false, List, [], ◌∷◌, arith, ltb,
  length, take, drop, Bool-cases, length-take, length-drop,
}
use Prim.Native.Nat.{min}
use kruise.Util.Batch.{BatchResult, run_batch, batches, do_it_slowly}

module _ {ℓ κ} {A : Type ℓ} {S : Type κ} (call : A → S → S × Bool) where
  run_batch-le-length : (xs : List A) (s : S) → (run_batch call xs s).1 ≤ length xs
  unfolding run_batch
  run_batch-le-length [] s = omega arith
  run_batch-le-length (x ∷ xs) s = ground (arith, run_batch-le-length xs (call x s).0)

  -- With the successes so far below a batch, the calls that are made after them.
  pub record IsSlow (xs : List A) (successes : ℕ) (r : BatchResult A S) : Type ℓ where
    pub made : ℕ
    pub all_calls : made + length r.untried ≡ length xs
    pub counted : r.successes ≤ successes + made
    pub finished : r.failed ≡ false → (length r.untried ≡ 0) × (r.successes ≡ successes + made)
    pub wasted :
        r.failed ≡ true
        → (r.successes < successes + made) × (successes + made ≤ 2 * r.successes + 1)

  idle :
      (fuel successes size : ℕ) (xs : List A) (s : S)
      → ltb 0 size ≡ false
      → (size ≡ 0 → length xs ≡ 0)
      → IsSlow xs successes (batches call (suc fuel) successes size xs s)
  unfolding batches
  idle fuel successes size xs s none_left z =
      rw (none_left, batches)
        (record {
          made = 0;
          all_calls = omega arith;
          counted = omega arith;
          finished = λ e. (z (ground arith), omega arith);
          wasted = λ e. absurd (cc);
        })

  later :
      (xs rest : List A) (successes n size : ℕ) (r : BatchResult A S)
      → n ≡ size
      → length rest + size ≡ length xs
      → IsSlow rest (successes + n) r
      → IsSlow xs successes r
  later xs rest successes n size r full left ih = record {
    made = size + ih.made;
    all_calls = omega (arith, ih.all_calls);
    counted = omega (arith, ih.counted);
    finished = λ e. let (a, b) = ih.finished e in (a, omega (arith, b));
    wasted = λ e. let (a, b) = ih.wasted e in (omega (arith, a), omega (arith, b));
  }

  batches-IsSlow :
      (fuel successes size : ℕ) (xs : List A) (s : S)
      → length xs < fuel
      → (size ≡ 0 → length xs ≡ 0)
      → size ≤ length xs
      → size ≤ successes + 1
      → IsSlow xs successes (batches call fuel successes size xs s)
  unfolding batches
  batches-IsSlow zero successes size xs s f z b c = absurd (omega arith)
  batches-IsSlow (suc fuel) successes size xs s f z b c =
      let batch = take size xs in
      let rest = drop size xs in
      let n = (run_batch call batch s).1 in
      let len : length batch ≡ size = omega (arith, length-take size xs) in
      let left : length rest + size ≡ length xs = omega (arith, length-drop size xs) in
      let some_fit : n ≤ size = omega (arith, len, run_batch-le-length batch s) in
      elim (Bool-cases (ltb 0 size)) [
        | inr none_left ↦ idle fuel successes size xs s none_left z
        | inl more ↦ elim (Bool-cases (ltb n (length batch))) [
          | inl fails ↦
              rw (more, fails, batches)
                (record {
                  made = size;
                  all_calls = omega (arith, left);
                  counted = omega (arith, some_fit);
                  finished = λ e. absurd (cc);
                  wasted = λ e. (ground (arith, len), omega arith);
                })
          | inr succeeds ↦
              let full : n ≡ size = ground (arith, len, some_fit) in
              let ih =
                batches-IsSlow fuel (successes + n) (min (2 * size) (length rest)) rest
                  (run_batch call batch s).0 (ground (arith, left)) (ground (arith, left))
                  (omega arith) (omega (arith, full)) in
              rw (more, succeeds, batches) (later xs rest successes n size _ full left ih)
        ]
      ]

  -- Started with one call: if no call fails, every item is called and succeeds; if one fails, the
  -- calls that were made are at most one more than twice those that succeeded, and the rest of the
  -- items are left alone.
  pub do_it_slowly-IsSlow : (xs : List A) (s : S) → IsSlow xs 0 (do_it_slowly call xs 1 s)
  unfolding do_it_slowly
  do_it_slowly-IsSlow xs s =
      batches-IsSlow (suc (length xs)) 0 (min (length xs) 1) xs s (omega arith) (λ e. omega arith)
        (omega arith) (omega arith)
