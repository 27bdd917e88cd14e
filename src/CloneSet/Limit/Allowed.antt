-- ===== src/CloneSet/Limit/Allowed.antt =====
-- The update never makes more pods unavailable than it may.
use kruise.Prelude.{
  ℕ, zero, suc, ◌+◌, ◌≤◌, ◌<◌, ◌≡◌, refl, ap, sym, ◌∙◌, ◌⊎◌, inl, inr, String, Bool, true, false,
  ◌&&◌, not, Option, none, some, List, [], ◌∷◌, ◌++◌, arith, length, get_elem?, to_ℕ, take, ltb,
  leb, drop, count, All, Bool-cases, Option-cases, take-append-drop, take_all, length-take,
  All-take,
}
use native.Mathlib.Nat.{add-zero}
use mathlib.Core.List.{append_assoc}
use kruise.Prelude.Int.{ℤ, pos, ◌≤ℤ◌, ◌<ℤ◌, leb_ℤ, pos_part}
use kruise.Util.Tools.{int_abs}
use kruise.Util.Pods.{Pod, equal_to_revision_hash}
use kruise.CloneSet.Types.{Env}
use kruise.CloneSet.Diff.{ExpectationDiffs}
use kruise.CloneSet.Limit.{◌>>=◌, shortened, is_available, can_update_count, limit_update_indexes}

get_elem?-lt {ℓ} :
    {A : Type ℓ} (xs : List A) (i : ℕ) → i < length xs → (x : A) × (get_elem? xs i ≡ some x)
get_elem?-lt [] i h = absurd (omega arith)
get_elem?-lt (x ∷ xs) zero h = (x, refl)
get_elem?-lt (x ∷ xs) (suc i) h = get_elem?-lt xs i (omega arith)

-- The guard keeps the slice within its range.
shortened-total : (n : ℕ) (is : List ℕ) → shortened n is ≡ some (take n is)
unfolding shortened
shortened-total n is = elim (Bool-cases (ltb n (length is))) [
  | inl longer ↦
      let within : leb n (length is) ≡ true = ground (arith, longer) in rw (longer, within) refl
  | inr short ↦ rw short (ap some (sym (take_all n is (ground (arith, short)))))
]

module _ (env : Env) (min_ready_seconds : ℤ) (pods : List Pod) where
  abbrev avail : Pod → Bool
  avail p = is_available env min_ready_seconds pods p

  abbrev pod_available : Option Pod → Bool
  pod_available none = false
  pod_available (some p) = avail p

  -- The pod at an index is available now, so that its update costs one.
  abbrev pub costs : ℕ → Bool
  costs i = pod_available (get_elem? pods i)

  -- What holds of the number `n` that the loop returns, started at `can`.
  record IsLimited (max_unavailable : ℤ) (unavailable target can n : ℕ) (is : List ℕ) : Type 0 where
    more : ℕ
    sum : n ≡ can + more
    within : more ≤ length is
    by_target : (more ≡ 0) ⊎ (pos (target + n) ≤ℤ max_unavailable)
    by_all :
        (count costs (take more is) ≡ 0)
        ⊎ (pos (unavailable + count costs (take more is)) ≤ℤ max_unavailable)

  stopped : (m : ℤ) (u t can n : ℕ) (is : List ℕ) → some can ≡ some n → IsLimited m u t can n is
  stopped m u t can n is e = record {
    more = 0;
    sum = ground arith;
    within = omega arith;
    by_target = inl refl;
    by_all = inl refl;
  }

  one_more :
      (m : ℤ) (u t can n i : ℕ) (is : List ℕ)
      → pos (t + can) <ℤ m
      → (costs i ≡ true → pos u <ℤ m)
      → IsLimited m (u + to_ℕ (costs i)) t (can + 1) n is
      → IsLimited m u t can n (i ∷ is)
  one_more m u t can n i is ht hu ih = record {
    more = suc ih.more;
    sum = omega (arith, ih.sum);
    within = omega (arith, ih.within);
    by_target = inr (omega (arith, ih.sum, ih.by_target));
    by_all = ground (arith, ih.by_all);
  }

  can_update_count-IsLimited :
      (max_unavailable : ℤ) (unavailable target can : ℕ) (is : List ℕ) {n : ℕ}
      → can_update_count env min_ready_seconds pods max_unavailable unavailable target can is
        ≡ some n
      → IsLimited max_unavailable unavailable target can n is
  unfolding can_update_count
  can_update_count-IsLimited m u t can [] e = stopped m u t can _ [] e
  can_update_count-IsLimited m u t can (i ∷ is) {n} e =
      elim (Bool-cases (leb_ℤ m (pos (t + can)))) [
        | inl full ↦ stopped m u t can n _ (ground arith)
        | inr room ↦ elim (Option-cases (get_elem? pods i)) [
          | inl outside ↦ absurd (ground arith)
          | inr (p, here) ↦ elim (Bool-cases (avail p)) [
            | inr off ↦ one_more m u t can n i is (ground arith) (ground arith) (
                let ih = can_update_count-IsLimited m u t (can + 1) is {n = n} (ground arith) in
                rw (here, off) (rw add-zero ih))
            | inl on ↦ elim (Bool-cases (leb_ℤ m (pos u))) [
              | inl full ↦ stopped m u t can n _ (ground arith)
              | inr room' ↦ one_more m u t can n i is (ground arith) (ground arith) (
                  let ih =
                    can_update_count-IsLimited m (u + 1) t (can + 1) is {n = n} (ground arith) in
                  rw (here, on) ih)
            ]
          ]
        ]
      ]

  can_update_count-total :
      (max_unavailable : ℤ) (unavailable target can : ℕ) (is : List ℕ)
      → All (λ i. i < length pods) is
      → (n : ℕ) × (can_update_count env min_ready_seconds pods max_unavailable unavailable target
            can is
          ≡ some n)
  unfolding can_update_count
  can_update_count-total m u t can [] h = (can, refl)
  can_update_count-total m u t can (i ∷ is) h =
      let (p, here) = get_elem?-lt pods i h.0 in
      let (n, rest) = can_update_count-total m u t (can + 1) is h.1 in
      let (n', rest') = can_update_count-total m (u + 1) t (can + 1) is h.1 in
      elim (Bool-cases (leb_ℤ m (pos (t + can)))) [
        | inl full ↦ (can, ground arith)
        | inr room ↦ elim (Bool-cases (avail p)) [
          | inr off ↦ (n, ground arith)
          | inl on ↦ elim (Bool-cases (leb_ℤ m (pos u))) [
            | inl full ↦ (can, ground arith)
            | inr room' ↦ (n', ground arith)
          ]
        ]
      ]

  -- The update of the pods at `chosen` keeps within what is allowed.
  pub record IsAllowed (diff : ExpectationDiffs) (waiting chosen : List ℕ) (hash : String)
      : Type 0 where
    pub rest : List ℕ
    pub is_prefix : chosen ++ rest ≡ waiting
    pub within : length chosen ≤ pos_part (int_abs diff.update_num)
    pub by_target :
        (length chosen ≡ 0)
        ⊎ (pos (count (λ p. not (avail p) && equal_to_revision_hash p hash) pods + length chosen)
            ≤ℤ diff.update_max_unavailable)
    pub by_all :
        (count costs chosen ≡ 0)
        ⊎ (pos (count (λ p. not (avail p)) pods + count costs chosen)
            ≤ℤ diff.update_max_unavailable)

  allowed :
      (diff : ExpectationDiffs) (waiting chosen : List ℕ) (hash : String) (n : ℕ)
      (limited : IsLimited diff.update_max_unavailable
        (count (λ p. not (avail p)) pods)
        (count (λ p. not (avail p) && equal_to_revision_hash p hash) pods)
        0
        n
        (take (pos_part (int_abs diff.update_num)) waiting))
      → chosen ≡ take limited.more (take (pos_part (int_abs diff.update_num)) waiting)
      → IsAllowed diff waiting chosen hash
  allowed diff waiting chosen hash n limited same =
      let k = pos_part (int_abs diff.update_num) in
      let first = take k waiting in
      let size : length chosen ≡ limited.more =
        omega (arith, ap length same, length-take limited.more first, limited.within) in
      record {
        rest = drop limited.more first ++ drop k waiting;
        is_prefix = rw same (
            sym (append_assoc (take limited.more first) (drop limited.more first) (drop k waiting))
            ∙ rw (take-append-drop limited.more first) (take-append-drop k waiting));
        within = omega (arith, size, limited.within, length-take k waiting);
        by_target = omega (arith, size, limited.sum, limited.by_target);
        by_all = rw same limited.by_all;
      }

  abbrev taken : Option ℕ → List ℕ → Option (List ℕ)
  taken none is = none
  taken (some n) is = some (take n is)

  then_shortened : (o : Option ℕ) (is : List ℕ) → (o >>= λ n. shortened n is) ≡ taken o is
  then_shortened none is = refl
  then_shortened (some n) is = shortened-total n is

  -- Without the guards, which keep both slices within their range.
  limit_update_indexes-taken :
      (diff : ExpectationDiffs) (waiting : List ℕ) (hash : String)
      → let first = take (pos_part (int_abs diff.update_num)) waiting in
        limit_update_indexes env min_ready_seconds pods diff waiting hash
        ≡ taken
            (can_update_count env min_ready_seconds pods diff.update_max_unavailable
              (count (λ p. not (avail p)) pods)
              (count (λ p. not (avail p) && equal_to_revision_hash p hash) pods)
              0
              first)
            first
  unfolding limit_update_indexes
  limit_update_indexes-taken diff waiting hash =
      rw (shortened-total (pos_part (int_abs diff.update_num)) waiting)
        (then_shortened _ (take (pos_part (int_abs diff.update_num)) waiting))

  -- The chosen indexes are the first of the waiting ones, no more than the number to update. With
  -- the unavailable pods of the target revision they stay within the maximum, if there are any;
  -- and so do those of them that take an available pod down, with all pods that are unavailable.
  pub limit_update_indexes-IsAllowed :
      (diff : ExpectationDiffs) (waiting chosen : List ℕ) (hash : String)
      → limit_update_indexes env min_ready_seconds pods diff waiting hash ≡ some chosen
      → IsAllowed diff waiting chosen hash
  limit_update_indexes-IsAllowed diff waiting chosen hash e =
      let k = pos_part (int_abs diff.update_num) in
      let first = take k waiting in
      let u = count (λ p. not (avail p)) pods in
      let t = count (λ p. not (avail p) && equal_to_revision_hash p hash) pods in
      let m = diff.update_max_unavailable in
      let loop = can_update_count env min_ready_seconds pods m u t 0 first in
      let simple = sym (limit_update_indexes-taken diff waiting hash) ∙ e in
      elim (Option-cases loop) [
        | inl fault ↦ absurd (ground (arith, simple, fault))
        | inr (n, counted) ↦
            let limited = can_update_count-IsLimited m u t 0 first counted in
            let same : chosen ≡ take limited.more first =
              ground (arith, limited.sum, simple, counted) in
            allowed diff waiting chosen hash n limited same
      ]

  -- If every waiting index is one of a pod, the indexes to update are computed without a
  -- fault: no pod is read and no slice is cut out of range.
  pub limit_update_indexes-total :
      (diff : ExpectationDiffs) (waiting : List ℕ) (hash : String)
      → All (λ i. i < length pods) waiting
      → (chosen : List ℕ) × (limit_update_indexes env min_ready_seconds pods diff waiting hash
          ≡ some chosen)
  limit_update_indexes-total diff waiting hash h =
      let k = pos_part (int_abs diff.update_num) in
      let u = count (λ p. not (avail p)) pods in
      let t = count (λ p. not (avail p) && equal_to_revision_hash p hash) pods in
      let (n, counted) =
        can_update_count-total diff.update_max_unavailable u t 0 (take k waiting)
          (All-take (λ i. i < length pods) k waiting h) in
      (take n (take k waiting), limit_update_indexes-taken diff waiting hash ∙ rw counted refl)
