-- ===== src/Spread/Quota.antt =====
-- Over a sequence of requests, what each subset is missing and the pods that were assigned to it.
use kruise.Prelude.{
  ℕ, suc, length, ◌+◌, ◌-◌, ◌<◌, ◌≡◌, ◌⊎◌, inl, inr, refl, sym, ◌∙◌, String, str_eq, str_eq_iff,
  Bool, true, false, not, ◌&&◌, Option, none, some, List, [], ◌∷◌, arith, Bool-cases, if◌then◌else◌,
  to_ℕ,
}
use mathlib.Core.Path.{subst}
use kruise.Prelude.Int.{
  ℤ, pos, negsuc, pos_part, parts_apart, wrap32, wrap32_id, int_laws, eq_of_parts, ltb_ℤ, leb_ℤ,
  ◌+ℤ◌, ◌-ℤ◌,
}
use kruise.Spread.{
  SubsetStatus, Operation, create, delete, evict, Request, Updated, update_subset_for_pod,
  write_subset, get_suitable_subset, get_specific_subset, is_pod_recorded_in_subset, is_limited,
  is_suitable, creates_one, deletes_one, written, unchanged, created_in, deleted_in, by_operation,
  create_in, delete_in, recorded,
}
use kruise.Spread.Found.{
  HasRange, IsSpread-less, room, IsSpread, IsFound, suitable-IsFound, specific-IsFound, write-room,
  write-IsSpread,
}

-- What a request comes to: pods of the subset are added to those that are created or deleted.
abbrev pub is_creation : Operation → Bool
is_creation create = true
is_creation delete = false
is_creation evict = false

abbrev pub assigns : Request → Updated → String → ℕ
assigns q u k = elim u.subset [
  | none ↦ 0
  | some s ↦ to_ℕ (u.changed && (is_creation q.operation && str_eq s.name k))
]

abbrev pub releases : Request → Updated → String → ℕ
releases q u k = elim u.subset [
  | none ↦ 0
  | some s ↦ to_ℕ (u.changed && (not (is_creation q.operation) && str_eq s.name k))
]

-- One request keeps the statuses in order, and accounts for the pod.
record IsAccounted (more : ℕ) (q : Request) (ss : List SubsetStatus) (u : Updated) : Type 0 where
  spread : IsSpread more u.statuses
  account : (k : String) → room k u.statuses + assigns q u k ≡ room k ss + releases q u k

write-IsAccounted :
    (more : ℕ) (q : Request) (ss : List SubsetStatus) (s : SubsetStatus) (uid : String)
    (made : Bool)
    → IsSpread (suc more) ss
    → IsFound (suc more) ss s
    → is_creation q.operation ≡ made
    → (n : SubsetStatus) → n.name ≡ s.name
    → HasRange more n.missing_replicas
    → pos_part n.missing_replicas + to_ℕ made ≡ pos_part s.missing_replicas + to_ℕ (not made)
    → IsAccounted more q ss (written ss uid n)
write-IsAccounted more q ss s uid made h (r, known, _) op n same low sum = record {
  spread = write-IsSpread more n ss low (IsSpread-less more ss h);
  account = λ k. at k (Bool-cases (str_eq n.name k)) (write-room n ss k (rw same known));
}
  where
    at :
        (k : String)
        → (str_eq n.name k ≡ true) ⊎ (str_eq n.name k ≡ false)
        → room k (write_subset n ss)
          ≡ (if str_eq n.name k then pos_part n.missing_replicas else room k ss)
        → room k (write_subset n ss) + to_ℕ (true && (is_creation q.operation && str_eq n.name k))
          ≡ room k ss + to_ℕ (true && (not (is_creation q.operation) && str_eq n.name k))
    at k (inl here) e =
        let name : s.name ≡ k = sym same ∙ (str_eq_iff n.name k).0 here in
        let old : room k ss ≡ pos_part s.missing_replicas =
          subst (λ x. room x ss ≡ pos_part s.missing_replicas) name r in
        ground (arith, e, here, op, old, sum)
    at k (inr there) e = ground (arith, e, there)

unchanged-IsAccounted :
    (more : ℕ) (q : Request) (ss : List SubsetStatus) (s : Option SubsetStatus)
    → IsSpread (suc more) ss
    → IsAccounted more q ss (unchanged ss s)
unchanged-IsAccounted more q ss none h = record {
  spread = IsSpread-less more ss h;
  account = λ k. refl;
}
unchanged-IsAccounted more q ss (some s) h = record {
  spread = IsSpread-less more ss h;
  account = λ k. refl;
}

one_less :
    (more : ℕ) (m : ℤ)
    → HasRange (suc more) m
    → ltb_ℤ (pos 0) m ≡ true
    → HasRange more (wrap32 (m -ℤ pos 1)) × (pos_part (wrap32 (m -ℤ pos 1)) + 1 ≡ pos_part m + 0)
one_less more (pos n) r h =
    let positive : 0 < n = ground (arith, h) in
    let same : pos n -ℤ pos 1 ≡ pos (n - 1) = eq_of_parts _ _ (omega int_laws) in
    let exact =
      wrap32_id (pos (n - 1)) (record { above = omega arith; below = omega (arith, r.high) }) in
    rw (same, exact) (record { low = omega arith; high = omega (arith, r.high) }, omega arith)
one_less more (negsuc n) r h = absurd (ground arith)

one_more :
    (more : ℕ) (m : ℤ)
    → HasRange (suc more) m
    → leb_ℤ (pos 0) m ≡ true
    → HasRange more (wrap32 (m +ℤ pos 1)) × (pos_part (wrap32 (m +ℤ pos 1)) + 0 ≡ pos_part m + 1)
one_more more (pos n) r h =
    let same : pos n +ℤ pos 1 ≡ pos (n + 1) = eq_of_parts _ _ (omega int_laws) in
    let exact =
      wrap32_id (pos (n + 1)) (record { above = omega arith; below = omega (arith, r.high) }) in
    rw (same, exact) (record { low = omega arith; high = omega (arith, r.high) }, omega arith)
one_more more (negsuc n) r h = absurd (ground arith)

creates_one-missing :
    (more : ℕ) (id : String) (now : ℤ) (s : SubsetStatus)
    → HasRange (suc more) s.missing_replicas
    → is_suitable s ≡ true
    → is_limited s ≡ true
    → HasRange more (creates_one id now s).missing_replicas
      × (pos_part (creates_one id now s).missing_replicas + 1 ≡ pos_part s.missing_replicas + 0)
creates_one-missing more id now s r h l =
    let some_missing : ltb_ℤ (pos 0) s.missing_replicas ≡ true = ground arith in
    rw some_missing (one_less more s.missing_replicas r some_missing)

deletes_one-missing :
    (more : ℕ) (name : String) (now : ℤ) (s : SubsetStatus)
    → HasRange (suc more) s.missing_replicas
    → is_limited s ≡ true
    → HasRange more (deletes_one name now s).missing_replicas
      × (pos_part (deletes_one name now s).missing_replicas + 0 ≡ pos_part s.missing_replicas + 1)
deletes_one-missing more name now s r l =
    let none_negative : leb_ℤ (pos 0) s.missing_replicas ≡ true =
      ground (arith, r.low, parts_apart s.missing_replicas) in
    rw none_negative (one_more more s.missing_replicas r none_negative)

update_subset_for_pod-IsAccounted :
    (more : ℕ) (q : Request) (ss : List SubsetStatus)
    → IsSpread (suc more) ss
    → IsAccounted more q ss (update_subset_for_pod q ss)
unfolding update_subset_for_pod
update_subset_for_pod-IsAccounted more q ss h = by q.operation refl
  where
    created :
        q.operation ≡ create
        → (o : Option SubsetStatus) → get_suitable_subset ss ≡ o
        → IsAccounted more q ss (created_in q ss o)
    created op none e = unchanged-IsAccounted more q ss none h
    created op (some s) e =
        let (f, on) = suitable-IsFound (suc more) ss h s e in
        elim (Bool-cases (is_limited s)) [
          | inl limited ↦
              let (low, sum) =
                creates_one-missing more (if str_eq q.pod_name "" then q.uid else q.pod_name) q.now
                  s f.2 on limited in
              rw limited (
                write-IsAccounted more q ss s _ true h f (rw op refl) (creates_one _ q.now s) refl
                  low sum)
          | inr free ↦ rw free (unchanged-IsAccounted more q ss (some s) h)
        ]

    deleted :
        is_creation q.operation ≡ false
        → (o : Option SubsetStatus) → get_specific_subset ss q.subset ≡ o
        → IsAccounted more q ss (deleted_in q ss o)
    deleted op none e = unchanged-IsAccounted more q ss none h
    deleted op (some s) e =
        let f = specific-IsFound (suc more) ss h q.subset s e in
        elim (Bool-cases (is_limited s)) [
          | inl limited ↦
              let (low, sum) = deletes_one-missing more q.pod_name q.now s f.2 limited in
              rw limited (
                write-IsAccounted more q ss s "" false h f op (deletes_one q.pod_name q.now s) refl
                  low sum)
          | inr free ↦ rw free (unchanged-IsAccounted more q ss (some s) h)
        ]

    removed :
        is_creation q.operation ≡ false
        → (o : Option SubsetStatus) → IsAccounted more q ss (delete_in q ss o)
    removed op none = deleted op (get_specific_subset ss q.subset) refl
    removed op (some s) = unchanged-IsAccounted more q ss none h

    admitted :
        q.operation ≡ create → (o : Option SubsetStatus) → IsAccounted more q ss (create_in q ss o)
    admitted op none = created op (get_suitable_subset ss) refl
    admitted op (some s) = unchanged-IsAccounted more q ss (some s) h

    by : (op : Operation) → q.operation ≡ op → IsAccounted more q ss (by_operation q ss op)
    by create e = admitted e (recorded q ss)
    by delete e = removed (rw e refl) (is_pod_recorded_in_subset ss q.pod_name)
    by evict e = removed (rw e refl) (is_pod_recorded_in_subset ss q.pod_name)

-- A sequence of requests on the stored statuses, one after the other.
abbrev pub after : List Request → List SubsetStatus → List SubsetStatus
after [] ss = ss
after (q ∷ qs) ss = after qs (update_subset_for_pod q ss).statuses

-- The pods that were assigned to a limited subset, and those whose deletion was noted in it.
abbrev pub assigned : String → List Request → List SubsetStatus → ℕ
assigned k [] ss = 0
assigned k (q ∷ qs) ss =
    let u = update_subset_for_pod q ss in assigns q u k + assigned k qs u.statuses

abbrev pub released : String → List Request → List SubsetStatus → ℕ
released k [] ss = 0
released k (q ∷ qs) ss =
    let u = update_subset_for_pod q ss in releases q u k + released k qs u.statuses

-- Whatever requests follow each other on the stored statuses, where the names of the subsets differ,
-- nothing below -1 is missing, and what a subset is missing and the number of the requests together
-- are within an int32: what a limited subset is missing in the end, and the pods that were assigned
-- to it, add up to what it was missing at first and the pods whose deletion was noted. So no more
-- pods are assigned to it than it had room for, with the room that the deletions made.
pub after-room :
    (qs : List Request) (ss : List SubsetStatus)
    → IsSpread (length qs) ss
    → (k : String) → room k (after qs ss) + assigned k qs ss ≡ room k ss + released k qs ss
after-room [] ss h k = refl
after-room (q ∷ qs) ss h k =
    let one = update_subset_for_pod-IsAccounted (length qs) q ss h in
    let u = update_subset_for_pod q ss in
    omega (arith, one.account k, after-room qs u.statuses one.spread k)
