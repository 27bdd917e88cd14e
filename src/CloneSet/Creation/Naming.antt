-- ===== src/CloneSet/Creation/Naming.antt =====
-- The names of the pods that `createPods` announces.
use kruise.Prelude.{
  ◌≡◌, refl, String, str_eq, str_eq_iff, str_eq_refl, Bool, true, false, not, ◌&&◌, ◌||◌, List, [],
  ◌∷◌, arith, if◌then◌else◌, Bool-cases, inl, inr, All,
}
use kruise.Prelude.Assoc.{Names, has}
use kruise.Util.Pods.{Pod}
use kruise.Expectations.Scale
use kruise.Expectations.Scale.{ScaleAction, expect_scale, observe_scale}
use kruise.Expectations.Scale.Pending.{same}
use kruise.CloneSet.Writes.{Attempt}

-- One of the pods has the name.
abbrev pub is_named : String → List Pod → Bool
is_named n [] = false
is_named n (p ∷ ps) = str_eq p.name n || is_named n ps

-- The names are those of no pod of the list.
abbrev pub AreOthers : List Pod → List String → Type 0
AreOthers pods names = All (λ n. is_named n pods ≡ false) names

pub not_named :
    (name n : String) (pods : List Pod)
    → is_named name pods ≡ false
    → (str_eq name n && is_named n pods) ≡ false
not_named name n pods h = elim (Bool-cases (str_eq name n)) [
  | inl same ↦ let e : name ≡ n = ground (arith, str_eq_iff name n) in rw (same, ← e) h
  | inr differ ↦ rw differ refl
]

pub is_named_of :
    (name n : String) (pods : List Pod)
    → is_named name pods ≡ true
    → (str_eq name n && not (is_named n pods)) ≡ false
is_named_of name n pods h = elim (Bool-cases (str_eq name n)) [
  | inl same ↦ let e : name ≡ n = ground (arith, str_eq_iff name n) in rw (same, ← e, h) refl
  | inr differ ↦ rw differ refl
]

pub has_same : (name n : String) (s : Names) → str_eq name n ≡ true → has n s ≡ has name s
has_same name n s h = let e : name ≡ n = ground (arith, str_eq_iff name n) in rw e refl

-- A claim is none of the announced pods: its answer decides what is awaited of it.
pub announced_step :
    (key name c a n : String) (ok before f accepted base named : Bool)
    → (str_eq name n && named) ≡ false
    → before
      ≡ (if str_eq key c then (if str_eq Scale.create a && named then f else accepted) else base)
    → (if same key Scale.create name c a n then ok else before) ≡ (
        if str_eq key c
        then (if str_eq Scale.create a && named
            then f
            else (if str_eq Scale.create a && str_eq name n then ok else accepted))
        else base)
announced_step key name c a n ok before f accepted base named h e = ground arith

-- A pod that is sent is announced already.
pub sent_step :
    (key name c a n : String) (ok f accepted base named : Bool)
    → (str_eq name n && not named) ≡ false
    → (if str_eq key c then (if str_eq Scale.create a && named then f else accepted) else base) ≡ (
        if str_eq key c
        then (if str_eq Scale.create a && named
            then f
            else (if str_eq Scale.create a && str_eq name n then ok else accepted))
        else base)
sent_step key name c a n ok f accepted base named h = ground arith

pub named_differ :
    (x n : String) (pods : List Pod)
    → is_named x pods ≡ false
    → is_named n pods ≡ true
    → str_eq x n ≡ false
named_differ x n pods h named = ground (arith, not_named x n pods h)

-- Whether a creation of the name was accepted at some time.
abbrev pub was_created : String → List Attempt → Bool
was_created n [] = false
was_created n (a ∷ log) =
    (str_eq a.action Scale.create && (str_eq a.name n && a.accepted)) || was_created n log

pub is_named-All :
    (all ps : List Pod)
    → ((n : String) → is_named n ps ≡ true → is_named n all ≡ true)
    → All (λ (p : Pod). is_named p.name all ≡ true) ps
is_named-All all [] h = tt
is_named-All all (p ∷ ps) h =
    (h p.name (ground (arith, str_eq_refl p.name)), is_named-All all ps (λ n e. h n (ground arith)))

pub All-zip : (P Q : Pod → Type 0) (ps : List Pod) → All P ps → All Q ps → All (λ p. P p × Q p) ps
All-zip P Q [] p q = tt
All-zip P Q (x ∷ ps) p q = ((p.0, q.0), All-zip P Q ps p.1 q.1)
