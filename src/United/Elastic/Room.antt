-- ===== src/United/Elastic/Room.antt =====
-- One step of the allocation, in exact numbers.
use kruise.Prelude.{◌∙◌, ◌≡◌, arith}
use kruise.Prelude.Int.{
  ℤ, parts_apart, pos, ◌+ℤ◌, ◌-ℤ◌, ◌≤ℤ◌, min_ℤ, wrap32, wrap32_id, IsInt32, int_laws, int_order,
  eq_of_parts,
}
use kruise.United.Elastic.{room}

pub wrap32_between : (a r : ℤ) → pos 0 ≤ℤ a → a ≤ℤ r → IsInt32 r → wrap32 a ≡ a
wrap32_between a r h le i =
    wrap32_id a (omega (arith, i.below, i.above, parts_apart a, parts_apart r))

-- What `add` does to the replicas that are allocated.
pub record IsRoom (quota replicas allocated add : ℤ) : Type 0 where
  pub nonneg : pos 0 ≤ℤ add
  pub le : add ≤ℤ quota
  pub within : allocated +ℤ add ≤ℤ replicas
  pub next : allocated +ℤ add ≡ min_ℤ replicas (allocated +ℤ quota)

pub room-IsRoom :
    (quota replicas allocated : ℤ)
    → pos 0 ≤ℤ quota
    → pos 0 ≤ℤ allocated
    → allocated ≤ℤ replicas
    → IsInt32 replicas
    → IsRoom quota replicas allocated (room quota replicas allocated)
unfolding room
room-IsRoom quota replicas allocated hq ha le i =
    let left : wrap32 (replicas -ℤ allocated) ≡ replicas -ℤ allocated =
      wrap32_between _ replicas (omega int_laws) (omega int_laws) i in
    rw left record {
      nonneg = omega int_order;
      le = omega int_order;
      within = omega int_order;
      next = eq_of_parts _ _ (omega int_order);
    }

-- The sum is exact, since it stays within the replicas.
pub exact_sum :
    (quota replicas allocated add : ℤ)
    → pos 0 ≤ℤ allocated
    → IsInt32 replicas
    → IsRoom quota replicas allocated add
    → wrap32 (allocated +ℤ add) ≡ allocated +ℤ add
exact_sum quota replicas allocated add h i r =
    wrap32_between _ replicas (omega (int_laws, r.nonneg)) r.within i

-- A later step reaches as far as both quotas together.
pub min_steps :
    (replicas a q rest : ℤ)
    → pos 0 ≤ℤ rest
    → min_ℤ replicas (min_ℤ replicas (a +ℤ q) +ℤ rest) ≡ min_ℤ replicas (a +ℤ (q +ℤ rest))
min_steps replicas a q rest h = eq_of_parts _ _ (omega int_order)

pub reach_step :
    (replicas quota rest allocated add last : ℤ)
    → pos 0 ≤ℤ rest
    → pos 0 ≤ℤ allocated
    → IsInt32 replicas
    → IsRoom quota replicas allocated add
    → last ≡ min_ℤ replicas (wrap32 (allocated +ℤ add) +ℤ rest)
    → last ≡ min_ℤ replicas (allocated +ℤ (quota +ℤ rest))
reach_step replicas quota rest allocated add last h ha i r e =
    e
    ∙ rw (exact_sum quota replicas allocated add ha i r, r.next)
        (min_steps replicas allocated quota rest h)
