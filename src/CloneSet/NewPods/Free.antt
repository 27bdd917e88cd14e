-- ===== src/CloneSet/NewPods/Free.antt =====
-- Which ids `getOrGenAvailableIDs` gives.
use kruise.Prelude.{
  ℕ, zero, suc, ◌+◌, ◌≤◌, ◌<◌, ◌≡◌, refl, ap, ◌∙◌, String, str_eq, str_eq_iff, Bool, true, false,
  ◌&&◌, ◌||◌, not, Option, some, List, [], ◌∷◌, arith, if◌then◌else◌, Bool-cases, inl, inr, length,
}
use kruise.Prelude.Int.{ℤ, pos_part}
use kruise.Prelude.Assoc.{Names, has, add, remove, has-add, has-remove}
use kruise.Util.Pods.{Pod, label}
use kruise.CloneSet.Deletion.{Pvc, instance_id_key}
use kruise.CloneSet.NewPods.{
  Ids, pod_ids, pvc_ids, without_pod_ids, draw, get_or_gen_instance_id, get_or_gen_ids,
  get_or_gen_available_ids,
}

-- A pod has the id.
abbrev pub is_taken : String → List Pod → Bool
is_taken j [] = false
is_taken j (pod ∷ pods) =
    let id = label instance_id_key pod in (not (str_eq id "") && str_eq id j) || is_taken j pods

has-pod_ids :
    (j : String) (pods : List Pod) (ids : Names)
    → has j (pod_ids pods ids) ≡ (is_taken j pods || has j ids)
has-pod_ids j [] ids = refl
has-pod_ids j (pod ∷ pods) ids =
    let id = label instance_id_key pod in
    has-pod_ids j pods (if str_eq id "" then ids else add id ids) ∙ ground (arith, has-add id j ids)

has-without_pod_ids :
    (j : String) (pods : List Pod) (ids : Names)
    → has j (without_pod_ids pods ids) ≡ (has j ids && not (is_taken j pods))
has-without_pod_ids j [] ids = ground arith
has-without_pod_ids j (pod ∷ pods) ids =
    let id = label instance_id_key pod in
    has-without_pod_ids j pods (if str_eq id "" then ids else remove id ids)
    ∙ ground (arith, has-remove id j ids)

-- The ids that were chosen of `free` ones, at most `n`: none is that of a pod; and where one is not
-- of the free ones, all of those are chosen.
pub record AreChosen (pods : List Pod) (free : Names) (n : ℕ) (chosen : Names) : Type 0 where
  pub few : length chosen ≤ n
  pub untaken : (j : String) → has j chosen ≡ true → is_taken j pods ≡ false
  pub reused :
      (j k : String)
      → has j chosen ≡ true
      → has j free ≡ false
      → has k free ≡ true
      → has k chosen ≡ true

-- While the ids are chosen.
record AreChoosing (pods : List Pod) (free : Names) (n : ℕ) (s : Ids) : Type 0 where
  few : length s.chosen ≤ n
  untaken : (j : String) → has j s.chosen ≡ true → is_taken j pods ≡ false
  left_untaken : (j : String) → has j s.available ≡ true → is_taken j pods ≡ false
  left_free : (j : String) → has j s.available ≡ true → has j free ≡ true
  kept : (j : String) → has j free ≡ true → (has j s.available || has j s.chosen) ≡ true
  reused : (j k : String) → has j s.chosen ≡ true → has j free ≡ false → has k s.available ≡ false

length-add : (id : String) (ids : Names) → length (add id ids) ≤ suc (length ids)
length-add id ids = ground arith

has_empty : (j : String) → has j [] ≡ false
has_empty j = refl

module _ (rand : ℕ → String) (fuel : ℕ) (pods : List Pod) (free : Names) where
  -- An available id is taken.
  choose_available :
      (n : ℕ) (id : String) (ids chosen : Names) (drawn : ℕ)
      → AreChoosing pods free n (record { available = id ∷ ids; chosen = chosen; drawn = drawn })
      → AreChoosing pods free
          (suc n)
          (record { available = ids; chosen = add id chosen; drawn = drawn })
  choose_available n id ids chosen drawn h = record {
    few = omega (arith, h.few, length-add id chosen);
    untaken =
        λ j e. ground (arith, has-add id j chosen, str_eq_iff id j, h.untaken j, h.left_untaken j);
    left_untaken = λ j e. ground (arith, h.left_untaken j);
    left_free = λ j e. ground (arith, h.left_free j);
    kept = λ j e. ground (arith, h.kept j e, has-add id j chosen);
    reused = λ j k e f.
        ground (
          arith,
          has-add id j chosen,
          str_eq_iff id j,
          h.left_free j,
          h.reused j k,
          h.left_free id,
        );
  }

  -- None is left, and a new id is drawn.
  choose_drawn :
      (n : ℕ) (id : String) (chosen : Names) (drawn drawn' : ℕ)
      → is_taken id pods ≡ false
      → AreChoosing pods free n (record { available = []; chosen = chosen; drawn = drawn })
      → AreChoosing pods free
          (suc n)
          (record { available = []; chosen = add id chosen; drawn = drawn' })
  choose_drawn n id chosen drawn drawn' new h = record {
    few = omega (arith, h.few, length-add id chosen);
    untaken = λ j e. ground (arith, has-add id j chosen, str_eq_iff id j, h.untaken j);
    left_untaken = λ j e. ground (arith);
    left_free = λ j e. ground (arith);
    kept = λ j e. ground (arith, h.kept j e, has-add id j chosen);
    reused = λ j k e f. refl;
  }

  module _ (existing : Names) where
    -- Of the next `fuel` texts one is new, wherever the drawing stands.
    abbrev pub Hits : Type 0
    Hits = (n : ℕ) → (k : ℕ) × (k < fuel) × (has (rand (n + k)) existing ≡ false)

    abbrev IsDrawn : Option (String × ℕ) → Type 0
    IsDrawn o = (id : String) × (n : ℕ) × (o ≡ some (id, n)) × (has id existing ≡ false)

    draw-IsDrawn :
        (f n k : ℕ)
        → k < f
        → has (rand (n + k)) existing ≡ false
        → IsDrawn (draw rand fuel f existing n)
    unfolding draw
    draw-IsDrawn zero n k lt new = absurd (omega (arith, lt))
    draw-IsDrawn (suc f) n zero lt new =
        let here : has (rand n) existing ≡ false =
          ap (λ m. has (rand m) existing) (omega arith) ∙ new in
        rw here (rand n, n + 1, refl, here)
    draw-IsDrawn (suc f) n (suc k) lt new = elim (Bool-cases (has (rand n) existing)) [
      | inr here ↦ rw here (rand n, n + 1, refl, here)
      | inl there ↦ rw there (
          draw-IsDrawn f (n + 1) k (omega (arith, lt))
            (ap (λ m. has (rand m) existing) (omega arith) ∙ new))
    ]

    abbrev IsGiven : ℕ → Option Ids → Type 0
    IsGiven n o = (s : Ids) × (o ≡ some s) × AreChoosing pods free n s

    module _ (hits : Hits)
        (covers : (j : String) → has j existing ≡ false → is_taken j pods ≡ false) where
      one-IsGiven :
          (n : ℕ) (s : Ids)
          → AreChoosing pods free n s
          → IsGiven (suc n) (get_or_gen_instance_id rand fuel existing s)
      unfolding get_or_gen_instance_id
      one-IsGiven n s h = step n s.available s.chosen s.drawn h
        where
          step :
              (n : ℕ) (available chosen : Names) (drawn : ℕ)
              → AreChoosing pods free n
                  (record { available = available; chosen = chosen; drawn = drawn })
              → IsGiven (suc n) (
                  get_or_gen_instance_id rand fuel existing
                    (record { available = available; chosen = chosen; drawn = drawn }))
          step n [] chosen drawn h =
              let (k, lt, new) = hits drawn in
              let (id, next, e, unused) = draw-IsDrawn fuel drawn k lt new in
              rw e (_, refl, choose_drawn n id chosen drawn next (covers id unused) h)
          step n (id ∷ ids) chosen drawn h = (_, refl, choose_available n id ids chosen drawn h)

      all-IsGiven :
          (m n : ℕ) (s : Ids)
          → AreChoosing pods free n s
          → IsGiven (m + n) (get_or_gen_ids rand fuel m existing s)
      unfolding get_or_gen_ids
      all-IsGiven zero n s h = let count : n ≡ 0 + n = omega arith in rw (← count) (s, refl, h)
      all-IsGiven (suc m) n s h =
          let (t, e, k) = one-IsGiven n s h in
          let count : suc m + n ≡ m + suc n = omega arith in
          rw (count, e, get_or_gen_ids) (all-IsGiven m (suc n) t k)

-- If, wherever the drawing stands, one of the next `fuel` texts is the id of no pod and no PVC: ids
-- are given, at most as many as asked for, none of them is that of a pod, and as long as a PVC has
-- an id that no pod has, such an id is given and no new one.
pub available_ids-AreChosen :
    (rand : ℕ → String) (fuel : ℕ) (num : ℤ) (pods : List Pod) (pvcs : List Pvc) (drawn : ℕ)
    → Hits rand fuel pods (without_pod_ids pods (pvc_ids pvcs [])) (pod_ids pods (pvc_ids pvcs []))
    → (s : Ids) × (get_or_gen_available_ids rand fuel num pods pvcs drawn ≡ some s)
      × AreChosen pods (without_pod_ids pods (pvc_ids pvcs [])) (pos_part num) s.chosen
unfolding get_or_gen_available_ids
available_ids-AreChosen rand fuel num pods pvcs drawn hits =
    let free = without_pod_ids pods (pvc_ids pvcs []) in
    let existing = pod_ids pods (pvc_ids pvcs []) in
    let covers : (j : String) → has j existing ≡ false → is_taken j pods ≡ false =
      λ j e. ground (arith, has-pod_ids j pods (pvc_ids pvcs [])) in
    let (s, e, h) =
      all-IsGiven rand fuel pods free existing hits covers (pos_part num) 0
        (record { available = free; chosen = []; drawn = drawn })
        (record {
          few = omega arith;
          untaken = λ j e. ground arith;
          left_untaken = λ j e. ground (arith, has-without_pod_ids j pods (pvc_ids pvcs []));
          left_free = λ j e. e;
          kept = λ j e. ground arith;
          reused = λ j k e f. ground arith;
        }) in
    (
      s,
      e,
      record {
        few = omega (arith, h.few);
        untaken = h.untaken;
        reused = λ j k e f g. ground (arith, h.reused j k e f, h.kept k g);
      },
    )
