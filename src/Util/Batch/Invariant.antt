-- ===== src/Util/Batch/Invariant.antt =====
-- The invariant rule of the slow start.
use kruise.Prelude.{
  ℕ, zero, suc, ◌+◌, ◌*◌, Bool, List, [], ◌∷◌, ltb, length, take, drop, All, All-take, Bool-cases,
  inl, inr,
}
use Prim.Native.Nat.{min}
use kruise.Util.Batch.{run_batch, batches, do_it_slowly}

module _ {ℓ κ μ ν} {A : Type ℓ} {S : Type κ} (call : A → S → S × Bool) (Q : A → Type μ)
    (P : S → Type ν) (keeps : (x : A) (s : S) → Q x → P s → P (call x s).0) where
  All-drop : (n : ℕ) (xs : List A) → All Q xs → All Q (drop n xs)
  All-drop zero xs h = h
  All-drop (suc n) [] h = h
  All-drop (suc n) (x ∷ xs) h = All-drop n xs h.1

  run_batch-keeps : (xs : List A) (s : S) → All Q xs → P s → P (run_batch call xs s).0
  unfolding run_batch
  run_batch-keeps [] s q p = p
  run_batch-keeps (x ∷ xs) s q p = run_batch-keeps xs (call x s).0 q.1 (keeps x s q.0 p)

  batches-keeps :
      (fuel successes size : ℕ) (xs : List A) (s : S)
      → All Q xs
      → P s
      → P (batches call fuel successes size xs s).state
  unfolding batches
  batches-keeps zero successes size xs s q p = p
  batches-keeps (suc fuel) successes size xs s q p =
      let batch = take size xs in
      let rest = drop size xs in
      let done = run_batch-keeps batch s (All-take Q size xs q) p in
      let n = (run_batch call batch s).1 in
      elim (Bool-cases (ltb 0 size)) [
        | inr none_left ↦ rw (none_left, batches) p
        | inl more ↦ elim (Bool-cases (ltb n (length batch))) [
          | inl fails ↦ rw (more, fails, batches) done
          | inr succeeds ↦
              rw (more, succeeds, batches)
                (batches-keeps fuel (successes + n) (min (2 * size) (length rest)) rest _
                  (All-drop size xs q) done)
        ]
      ]

  -- What each call keeps, for an item of the list, holds after all of them.
  pub do_it_slowly-keeps :
      (xs : List A) (initial : ℕ) (s : S)
      → All Q xs
      → P s
      → P (do_it_slowly call xs initial s).state
  unfolding do_it_slowly
  do_it_slowly-keeps xs initial s q p =
      batches-keeps (suc (length xs)) 0 (min (length xs) initial) xs s q p
