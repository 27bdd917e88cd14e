-- ===== src/Expectations/ResourceVersion/Versions.antt =====
-- What the store answers after a history of calls.
use kruise.Prelude.{
  ℕ, ◌≤◌, ◌≡◌, refl, ◌↔◌, String, str_eq_iff, str_eq_refl, true, false, none, some, List, [], ◌∷◌,
  arith, leb, if◌then◌else◌, All, Bool-cases, inl, inr, is_some,
}
use kruise.Prelude.Int.{pos, ◌-ℤ◌}
use kruise.Prelude.Assoc.{lookup, insert, lookup-insert, lookup-erase}
use kruise.Prelude.Decimal.{parse_uint}
use kruise.Expectations.ResourceVersion.{
  Object, Store, ObjectCacheVersions, is_resource_version_newer, expect, observe, is_satisfied,
}

-- A resource version that is a number.
abbrev pub IsVersion : String → Type 0
IsVersion s = is_some (parse_uint s) ≡ true

abbrev pub value : String → ℕ
value s = elim (parse_uint s) [ none ↦ 0 | some n ↦ n ]

parse_uint-nil : parse_uint "" ≡ none
unfolding parse_uint
parse_uint-nil = refl

newer-eq-leb :
    (v w : String)
    → IsVersion v
    → IsVersion w
    → is_resource_version_newer v w ≡ leb (value v) (value w)
unfolding is_resource_version_newer
newer-eq-leb v w hv hw = ground (arith, str_eq_iff v "", parse_uint-nil)

abbrev pub object : String → String → Object
object uid version = record { uid = uid; resource_version = version }

-- The controller writes the object several times, and expects each version that it got back.
pub expects : String → List String → Store → Store
expects uid [] r = r
expects uid (v ∷ vs) r = expects uid vs (expect r (object uid v))

abbrev Stores : Store → String → ℕ → Type 0
Stores r uid n =
    (e : ObjectCacheVersions) × (lookup uid r ≡ some e)
    × IsVersion e.version
    × (value e.version ≡ n)

newer-nil : (w : String) → is_resource_version_newer "" w ≡ true
unfolding is_resource_version_newer
newer-nil w = refl

lookup-insert_self :
    (uid : String) (e : ObjectCacheVersions) (r : Store) → lookup uid (insert uid e r) ≡ some e
lookup-insert_self uid e r = simp (lookup-insert, str_eq_refl)

expect_new :
    (r : Store) (uid v : String)
    → IsVersion v
    → lookup uid r ≡ none
    → Stores (expect r (object uid v)) uid (value v)
unfolding expect
expect_new r uid v hv h = (
  record { version = v; first_unsatisfied_timestamp = none },
  rw (h, expect) (rw (newer-nil v) (lookup-insert_self uid _ _)),
  hv,
  refl,
)

abbrev pub larger : ℕ → ℕ → ℕ
larger a b = if leb a b then b else a

expect_old :
    (r : Store) (uid v : String) (n : ℕ)
    → IsVersion v
    → Stores r uid n
    → Stores (expect r (object uid v)) uid (larger n (value v))
unfolding expect
expect_old r uid v n hv (e, h, he, hn) = elim (Bool-cases (is_resource_version_newer e.version v)) [
  | inl newer ↦ (
    record e { version = v },
    rw (h, expect) (rw newer (lookup-insert_self uid _ _)),
    hv,
    ground (arith, newer-eq-leb e.version v he hv),
  )
  | inr older ↦ (e, rw (h, expect) (rw older h), he, ground (arith, newer-eq-leb e.version v he hv))
]

abbrev pub largest : ℕ → List String → ℕ
largest n [] = n
largest n (v ∷ vs) = largest (larger n (value v)) vs

expects_old :
    (uid : String) (vs : List String) (r : Store) (n : ℕ)
    → All IsVersion vs
    → Stores r uid n
    → Stores (expects uid vs r) uid (largest n vs)
unfolding expects
expects_old uid [] r n h s = s
expects_old uid (v ∷ vs) r n h s =
    expects_old uid vs (expect r (object uid v)) (larger n (value v)) h.1
      (expect_old r uid v n h.0 s)

largest-le :
    (n m : ℕ) (vs : List String) → (largest n vs ≤ m) ↔ ((n ≤ m) × All (λ v. value v ≤ m) vs)
largest-le n m [] = (λ h. (h, tt), λ h. h.0)
largest-le n m (v ∷ vs) = (
  λ h. ground (arith, (largest-le (larger n (value v)) m vs).0 h),
  λ h. (largest-le (larger n (value v)) m vs).1 (ground arith, h.1.1),
)

is_satisfied_old :
    (now : ℕ) (r : Store) (uid w : String) (n : ℕ)
    → IsVersion w
    → Stores r uid n
    → (is_satisfied now r (object uid w)).satisfied ≡ leb n (value w)
unfolding is_satisfied
is_satisfied_old now r uid w n hw (e, h, he, hn) =
    rw (h, is_satisfied) (ground (arith, newer-eq-leb e.version w he hw))

-- A controller expects the versions v and vs of an object that the store does not hold, all of
-- them numbers. A copy of the object at a numeric version is then satisfied exactly when its
-- version is at least each one that was expected, in whatever order they were expected.
pub is_satisfied-expects :
    (now : ℕ) (r : Store) (uid v w : String) (vs : List String)
    → lookup uid r ≡ none
    → All IsVersion (v ∷ vs)
    → IsVersion w
    → ((is_satisfied now (expects uid (v ∷ vs) r) (object uid w)).satisfied ≡ true)
      ↔ All (λ x. value x ≤ value w) (v ∷ vs)
unfolding expects
is_satisfied-expects now r uid v w vs h hv hw =
    let stored = expects_old uid vs _ (value v) hv.1 (expect_new r uid v hv.0 h) in
    let answer = is_satisfied_old now _ uid w _ hw stored in
    let bound = largest-le (value v) (value w) vs in
    (λ ok. bound.0 (ground arith), λ le. ground (arith, bound.1 le))

-- Once a copy that meets the expectation is seen, the store has forgotten the object: every copy
-- that is asked for afterwards is satisfied, also one of an older or a malformed version.
pub is_satisfied-observe :
    (now : ℕ) (r : Store) (uid w x : String) (e : ObjectCacheVersions)
    → lookup uid r ≡ some e
    → is_resource_version_newer e.version w ≡ true
    → (is_satisfied now (observe r (object uid w)) (object uid x)).satisfied ≡ true
unfolding is_satisfied observe
is_satisfied-observe now r uid w x e h newer =
    rw (h, observe) (rw newer (rw (lookup-erase uid uid r, is_satisfied) (rw (str_eq_refl uid))))

-- The time that is reported for an unsatisfied object runs from the first call that found it
-- unsatisfied: a later call on an older copy reports the difference of the two clocks.
pub is_satisfied_duration :
    (first now : ℕ) (r : Store) (uid w x : String) (e : ObjectCacheVersions)
    → lookup uid r ≡ some e
    → e.first_unsatisfied_timestamp ≡ none
    → is_resource_version_newer e.version w ≡ false
    → is_resource_version_newer e.version x ≡ false
    → let again = is_satisfied now (is_satisfied first r (object uid w)).store (object uid x) in
      (again.satisfied ≡ false) × (again.unsatisfied_for ≡ pos now -ℤ pos first)
unfolding is_satisfied
is_satisfied_duration first now r uid w x e h zero_time older older' =
    ground (arith, lookup-insert_self uid (record e { first_unsatisfied_timestamp = some first }) r)
