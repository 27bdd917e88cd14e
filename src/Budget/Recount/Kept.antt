-- ===== src/Budget/Recount/Kept.antt =====
-- Which records a recount keeps.
use kruise.Prelude.{
  ℕ, ◌+◌, ◌≡◌, refl, sym, ap, ◌∙◌, arith, String, str_eq, str_eq_iff, Bool, true, false, ◌&&◌, ◌||◌,
  Bool-cases, Option, none, some, inl, inr, List, [], ◌∷◌, if◌then◌else◌, ltb,
}
use kruise.Prelude.Assoc.{lookup, lookup-insert}
use kruise.Budget.Types.{Status}
use kruise.Budget.Recount.{
  BudgetPod, Recorded, build_from, build_disrupted_and_unavailable_pods, deletion_timeout,
  updated_delay_check_time, keep_disrupted, keep_unavailable,
}

-- An active pod of the list has the name.
abbrev pub is_present : String → List BudgetPod → Bool
is_present name [] = false
is_present name (p ∷ ps) = (p.is_active && str_eq p.name name) || is_present name ps

-- A record as long as it has not expired.
abbrev pub unexpired : ℕ → ℕ → Option ℕ → Option ℕ
unexpired timeout now none = none
unexpired timeout now (some time) = if ltb (time + timeout) now then none else some time

-- What a map holds for a name, once the record `r` is put there if the name is `present`.
abbrev merge : Bool → Option ℕ → Option ℕ → Option ℕ
merge present none before = before
merge present (some time) before = if present then some time else before

merge-merge :
    (a b : Bool) (o before : Option ℕ) → merge b o (merge a o before) ≡ merge (a || b) o before
merge-merge a b none before = refl
merge-merge true b (some t) before = ground arith
merge-merge false b (some t) before = refl

disrupted_step :
    (name k : String) (now : ℕ) (o : Option ℕ) (r : Recorded)
    → lookup k (keep_disrupted name now o r).disrupted_pods ≡ (
        if str_eq name k
        then merge true (unexpired deletion_timeout now o) (lookup k r.disrupted_pods)
        else lookup k r.disrupted_pods)
disrupted_step name k now none r = ground arith
disrupted_step name k now (some t) r = ground (arith, lookup-insert name k t r.disrupted_pods)

disrupted_same :
    (name : String) (now : ℕ) (o : Option ℕ) (r : Recorded)
    → (keep_unavailable name now o r).disrupted_pods ≡ r.disrupted_pods
disrupted_same name now none r = refl
disrupted_same name now (some t) r = ground arith

unavailable_step :
    (name k : String) (now : ℕ) (o : Option ℕ) (r : Recorded)
    → lookup k (keep_unavailable name now o r).unavailable_pods ≡ (
        if str_eq name k
        then merge true (unexpired updated_delay_check_time now o) (lookup k r.unavailable_pods)
        else lookup k r.unavailable_pods)
unavailable_step name k now none r = ground arith
unavailable_step name k now (some t) r = ground (arith, lookup-insert name k t r.unavailable_pods)

unavailable_same :
    (name : String) (now : ℕ) (o : Option ℕ) (r : Recorded)
    → (keep_disrupted name now o r).unavailable_pods ≡ r.unavailable_pods
unavailable_same name now none r = refl
unavailable_same name now (some t) r = ground arith

merge-false : (o before : Option ℕ) → merge false o before ≡ before
merge-false none before = refl
merge-false (some t) before = refl

same_name : (name k : String) → str_eq name k ≡ true → name ≡ k
same_name name k h = ground (arith, str_eq_iff name k)

module _ (s : Status) (now : ℕ) (k : String) where
  abbrev visited : BudgetPod → Recorded → Recorded
  visited p r =
      if p.is_active
      then keep_unavailable p.name now (lookup p.name s.unavailable_pods)
          (keep_disrupted p.name now (lookup p.name s.disrupted_pods) r)
      else r

  one_disrupted :
      (p : BudgetPod) (r : Recorded)
      → lookup k (visited p r).disrupted_pods
        ≡ merge
            (p.is_active && str_eq p.name k)
            (unexpired deletion_timeout now (lookup k s.disrupted_pods))
            (lookup k r.disrupted_pods)
  one_disrupted p r = elim (Bool-cases p.is_active) [
    | inr off ↦ rw off (sym (merge-false _ _))
    | inl on ↦
        rw
          (
            on,
            disrupted_same p.name now (lookup p.name s.unavailable_pods) _,
            disrupted_step p.name k now (lookup p.name s.disrupted_pods) r,
          )
          (elim (Bool-cases (str_eq p.name k)) [
            | inr elsewhere ↦ rw elsewhere (sym (merge-false _ _))
            | inl here ↦ rw (here, same_name p.name k here) refl
          ])
  ]

  build_disrupted :
      (ps : List BudgetPod) (r : Recorded)
      → lookup k (build_from s now ps r).disrupted_pods
        ≡ merge
            (is_present k ps)
            (unexpired deletion_timeout now (lookup k s.disrupted_pods))
            (lookup k r.disrupted_pods)
  build_disrupted [] r = sym (merge-false _ _)
  build_disrupted (p ∷ ps) r =
      build_disrupted ps (visited p r)
      ∙ ap (merge (is_present k ps) _) (one_disrupted p r)
      ∙ merge-merge (p.is_active && str_eq p.name k) (is_present k ps)
          (unexpired deletion_timeout now (lookup k s.disrupted_pods)) (lookup k r.disrupted_pods)

  one_unavailable :
      (p : BudgetPod) (r : Recorded)
      → lookup k (visited p r).unavailable_pods
        ≡ merge
            (p.is_active && str_eq p.name k)
            (unexpired updated_delay_check_time now (lookup k s.unavailable_pods))
            (lookup k r.unavailable_pods)
  one_unavailable p r = elim (Bool-cases p.is_active) [
    | inr off ↦ rw off (sym (merge-false _ _))
    | inl on ↦
        rw
          (
            on,
            unavailable_step p.name k now (lookup p.name s.unavailable_pods) _,
            unavailable_same p.name now (lookup p.name s.disrupted_pods) r,
          )
          (elim (Bool-cases (str_eq p.name k)) [
            | inr elsewhere ↦ rw elsewhere (sym (merge-false _ _))
            | inl here ↦ rw (here, same_name p.name k here) refl
          ])
  ]

  build_unavailable :
      (ps : List BudgetPod) (r : Recorded)
      → lookup k (build_from s now ps r).unavailable_pods
        ≡ merge
            (is_present k ps)
            (unexpired updated_delay_check_time now (lookup k s.unavailable_pods))
            (lookup k r.unavailable_pods)
  build_unavailable [] r = sym (merge-false _ _)
  build_unavailable (p ∷ ps) r =
      build_unavailable ps (visited p r)
      ∙ ap (merge (is_present k ps) _) (one_unavailable p r)
      ∙ merge-merge (p.is_active && str_eq p.name k) (is_present k ps)
          (unexpired updated_delay_check_time now (lookup k s.unavailable_pods))
          (lookup k r.unavailable_pods)

-- What a recount keeps of a name.
abbrev pub kept_if : Bool → Option ℕ → Option ℕ
kept_if true o = o
kept_if false o = none

merge-kept_if : (present : Bool) (o : Option ℕ) → merge present o none ≡ kept_if present o
merge-kept_if true none = refl
merge-kept_if true (some t) = refl
merge-kept_if false none = refl
merge-kept_if false (some t) = refl

-- A recount keeps the record of a disrupted pod for 20 seconds, and that of an updated one for 10,
-- and drops every record whose pod is not there or not active; no other name is recorded.
pub build-keeps :
    (pods : List BudgetPod) (s : Status) (now : ℕ) (k : String)
    → (lookup k (build_disrupted_and_unavailable_pods pods s now).disrupted_pods
        ≡ kept_if (is_present k pods) (unexpired 20000000000 now (lookup k s.disrupted_pods)))
      × (lookup k (build_disrupted_and_unavailable_pods pods s now).unavailable_pods
          ≡ kept_if (is_present k pods) (unexpired 10000000000 now (lookup k s.unavailable_pods)))
unfolding build_disrupted_and_unavailable_pods
build-keeps pods s now k = (
  build_disrupted s now k pods _ ∙ merge-kept_if (is_present k pods) _,
  build_unavailable s now k pods _ ∙ merge-kept_if (is_present k pods) _,
)
