-- ===== src/CloneSet/NewPods/Made.antt =====
-- How many pods `NewVersionedPods` makes, with which ids and for which revisions.
use kruise.Prelude.{
  ℕ, zero, suc, ◌+◌, ◌≤◌, ◌≡◌, ◌⊎◌, refl, sym, ap, ◌∙◌, String, str_eq_refl, Bool, true, false,
  List, [], ◌∷◌, ◌++◌, map, arith, if◌then◌else◌, Bool-cases, inl, inr, length, take, drop, All,
  length-drop,
}
use Prim.Native.Nat.{min}
use kruise.Prelude.Int.{ℤ, pos, pos_part, ◌-ℤ◌, ◌≤ℤ◌, leb_ℤ, -ℤ_parts, parts_apart}
use kruise.Prelude.Assoc.{insert}
use kruise.Util.Pods.{
  Pod, label, get_short_hash, equal_to_revision_hash, controller_revision_hash_key,
}
use kruise.Util.Pods.Labels.{get_short_hash_idem, label-insert}
use kruise.CloneSet.Deletion.{instance_id_key}
use kruise.CloneSet.NewPods.{
  Template, write_revision_hash, new_pod, new_pods_of, new_versioned_pods, pod_template_hash_key,
}

-- The pod counts as one of the revision.
abbrev pub IsOf : String → Pod → Type 0
IsOf revision p = equal_to_revision_hash p revision ≡ true

label-new_pod :
    (short : Bool) (cs : Template) (revision id : String)
    → label controller_revision_hash_key (new_pod short cs revision id)
      ≡ (if short then get_short_hash revision else revision)
unfolding new_pod write_revision_hash
label-new_pod short cs revision id =
    let hash = if short then get_short_hash revision else revision in
    let blank : Pod = record { name = cs.name; uid = ""; labels = cs.labels; finalizers = [] } in
    let hashed : Pod = record blank {
      labels = insert controller_revision_hash_key hash cs.labels;
    } in
    let both : Pod = record blank {
      labels = insert pod_template_hash_key (get_short_hash revision) hashed.labels;
    } in
    label-insert instance_id_key controller_revision_hash_key id both
    ∙ label-insert pod_template_hash_key controller_revision_hash_key (get_short_hash revision)
        hashed
    ∙ label-insert controller_revision_hash_key controller_revision_hash_key hash blank

new_pod-IsOf :
    (short : Bool) (cs : Template) (revision id : String)
    → IsOf revision (new_pod short cs revision id)
unfolding equal_to_revision_hash
new_pod-IsOf true cs revision id =
    let e = label-new_pod true cs revision id in
    ground (arith, e, get_short_hash_idem revision, str_eq_refl (get_short_hash revision))
new_pod-IsOf false cs revision id =
    ground (arith, label-new_pod false cs revision id, str_eq_refl revision)

new_pod_id :
    (short : Bool) (cs : Template) (revision id : String)
    → label instance_id_key (new_pod short cs revision id) ≡ id
unfolding new_pod write_revision_hash
new_pod_id short cs revision id =
    let blank : Pod = record { name = cs.name; uid = ""; labels = cs.labels; finalizers = [] } in
    label-insert instance_id_key instance_id_key id (write_revision_hash short blank revision)

abbrev pub ids_of : List Pod → List String
ids_of pods = map (label instance_id_key) pods

-- What `newVersionedPods` makes of the ids.
record IsBatch (revision : String) (n : ℕ) (ids : List String) (pods : List Pod)
    (left : List String) : Type 0 where
  named : ids_of pods ≡ take n ids
  counted : length pods ≡ min n (length ids)
  rest : left ≡ drop n ids
  of_revision : All (IsOf revision) pods

new_pods_of-IsBatch :
    (short : Bool) (cs : Template) (revision : String) (n : ℕ) (ids : List String)
    → let r = new_pods_of short cs revision n ids in IsBatch revision n ids r.0 r.1
unfolding new_pods_of
new_pods_of-IsBatch short cs revision zero ids = record {
  named = refl;
  counted = omega arith;
  rest = refl;
  of_revision = tt;
}
new_pods_of-IsBatch short cs revision (suc n) [] = record {
  named = refl;
  counted = omega arith;
  rest = refl;
  of_revision = tt;
}
new_pods_of-IsBatch short cs revision (suc n) (id ∷ ids) =
    let h = new_pods_of-IsBatch short cs revision n ids in
    record {
      named = rw (new_pod_id short cs revision id, h.named) refl;
      counted = omega (arith, h.counted);
      rest = h.rest;
      of_revision = (new_pod-IsOf short cs revision id, h.of_revision);
    }

All-split {ℓ κ} :
    {A : Type ℓ} (P Q : A → Type κ) (n : ℕ) (xs ys : List A)
    → (length xs ≡ n) ⊎ ((length ys ≡ 0) × (length xs ≤ n))
    → All P xs
    → All Q ys
    → All P (take n (xs ++ ys)) × All Q (drop n (xs ++ ys))
All-split P Q zero [] ys h p q = (tt, q)
All-split P Q (suc n) [] [] h p q = (tt, tt)
All-split P Q (suc n) [] (y ∷ ys) h p q = absurd (ground arith)
All-split P Q zero (x ∷ xs) ys h p q = absurd (ground arith)
All-split P Q (suc n) (x ∷ xs) ys h p q =
    let r = All-split P Q n xs ys (ground arith) p.1 q in ((p.0, r.0), r.1)

take_nil {ℓ} : {A : Type ℓ} (n : ℕ) → take {A = A} n [] ≡ []
take_nil zero = refl
take_nil (suc n) = refl

All-within {ℓ κ} :
    {A : Type ℓ} (P Q : A → Type κ) (n : ℕ) (xs : List A)
    → length xs ≤ n
    → All P xs
    → All P (take n xs) × All Q (drop n xs)
All-within P Q zero [] h p = (tt, tt)
All-within P Q (suc n) [] h p = (tt, tt)
All-within P Q zero (x ∷ xs) h p = absurd (omega arith)
All-within P Q (suc n) (x ∷ xs) h p =
    let r = All-within P Q n xs (omega arith) p.1 in ((p.0, r.0), r.1)

take-take-drop {ℓ} :
    {A : Type ℓ} (m n : ℕ) (xs : List A) → take m xs ++ take n (drop m xs) ≡ take (m + n) xs
take-take-drop zero n xs = let count : n ≡ 0 + n = omega arith in rw (← count) refl
take-take-drop (suc m) n [] = take_nil n ∙ sym (take_nil (suc m + n))
take-take-drop (suc m) n (x ∷ xs) =
    let count : suc m + n ≡ suc (m + n) = omega arith in
    rw count (ap (◌∷◌ x) (take-take-drop m n xs))

map-++ {ℓ κ} :
    {A : Type ℓ} {B : Type κ} (f : A → B) (xs ys : List A) → map f (xs ++ ys) ≡ map f xs ++ map f ys
map-++ f [] ys = refl
map-++ f (x ∷ xs) ys = ap (◌∷◌ (f x)) (map-++ f xs ys)

-- Pods of the current revision, and then those of the update revision from the ids that are left.
AreMade : (r q : String) (m total : ℕ) (ids : List String) (pods : List Pod) → Type 0
AreMade r q m total ids pods =
    (ids_of pods ≡ take total ids) × (All (IsOf r) (take m pods) × All (IsOf q) (drop m pods))

AreMade-append :
    (r q : String) (m n total : ℕ) (ids left rest : List String) (xs ys : List Pod)
    → m + n ≡ total
    → IsBatch r m ids xs left
    → IsBatch q n left ys rest
    → AreMade r q m total ids (xs ++ ys)
unfolding AreMade
AreMade-append r q m n total ids left rest xs ys e a b =
    let fits : (length xs ≡ m) ⊎ ((length ys ≡ 0) × (length xs ≤ m)) =
      ground (arith, a.counted, b.counted, ap length a.rest, length-drop m ids) in
    (
      map-++ (label instance_id_key) xs ys
          ∙ rw (a.named, b.named, a.rest, ← e) (take-take-drop m n ids),
      All-split (IsOf r) (IsOf q) m xs ys fits a.of_revision b.of_revision,
    )

-- With a number of pods of the current revision that is not negative: the pods have the first of the
-- ids, as many as are to be created and as there are; so many as belong to the current revision
-- count as pods of it, and the others as pods of the update revision, also with short hashes.
pub new_versioned_pods-IsOf :
    (short : Bool) (current_cs update_cs : Template) (current_revision update_revision : String)
    (creations current : ℤ) (ids : List String)
    → pos 0 ≤ℤ current
    → let pods =
        new_versioned_pods short current_cs update_cs current_revision update_revision creations
          current ids in
      (ids_of pods ≡ take (pos_part creations) ids)
      × (All (IsOf current_revision) (take (pos_part current) pods)
          × All (IsOf update_revision) (drop (pos_part current) pods))
unfolding new_versioned_pods AreMade
new_versioned_pods-IsOf short current_cs update_cs current_revision update_revision creations
      current ids h =
    elim (Bool-cases (leb_ℤ creations current)) [
      | inl all ↦
          let b = new_pods_of-IsBatch short current_cs current_revision (pos_part creations) ids in
          rw all (
            b.named,
            All-within (IsOf current_revision) (IsOf update_revision) (pos_part current) _
                (ground (arith, b.counted)) b.of_revision,
          )
      | inr some_of ↦
          let a = new_pods_of-IsBatch short current_cs current_revision (pos_part current) ids in
          let left = (new_pods_of short current_cs current_revision (pos_part current) ids).1 in
          let b =
            new_pods_of-IsBatch short update_cs update_revision (pos_part (creations -ℤ current))
              left in
          rw some_of (
            AreMade-append current_revision update_revision (pos_part current)
              (pos_part (creations -ℤ current)) (pos_part creations) ids left _ _ _
              (ground (
                arith,
                -ℤ_parts creations current,
                parts_apart creations,
                parts_apart current,
                parts_apart (creations -ℤ current),
              ))
              a b)
    ]
