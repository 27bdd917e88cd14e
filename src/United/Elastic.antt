-- ===== src/United/Elastic.antt =====
-- The elastic allocator of allocator.go: `elasticAllocator` and `NewReplicaAllocator`. The sums
-- `totalMin` and `totalMax`, which the source computes and never reads, are left out.
use kruise.Prelude.{
  String, Bool, true, false, ◌||◌, Option, none, some, List, [], ◌∷◌, if◌then◌else◌, is_some,
}
use kruise.Prelude.Int.{ℤ, pos, ◌+ℤ◌, ◌-ℤ◌, ltb_ℤ, leb_ℤ, min_ℤ, max_ℤ, wrap32}
use kruise.Prelude.Assoc.{insert}
use kruise.Util.Tools.{IntOrString}
use kruise.United.Types.{SubsetDef, UnitedDeployment, parse_subset_replicas, or_zero}
use kruise.United.Sums.{Replicas, at}
pub mod Room
pub mod Counted
pub mod Totals
pub mod Shares
mod Examples

-- A bound of a subset, or its default.
abbrev bound_of : ℤ → ℤ → Option IntOrString → ℤ
bound_of default replicas none = default
bound_of default replicas (some bound) = or_zero (parse_subset_replicas replicas bound)

abbrev pub min_of : ℤ → SubsetDef → ℤ
min_of replicas subset = bound_of (pos 0) replicas subset.min_replicas

abbrev pub max_of : ℤ → SubsetDef → ℤ
max_of replicas subset = bound_of (pos 1000000) replicas subset.max_replicas

pub record MinMax : Type 0 where
  pub min_replicas : Replicas
  pub max_replicas : Replicas

-- The loop of `validateAndCalculateMinMaxMap`; `none` is the error.
fill_bounds : ℤ → List SubsetDef → MinMax → Option MinMax
fill_bounds replicas [] b = some b
fill_bounds replicas (subset ∷ subsets) b =
    let rest = fill_bounds replicas subsets (record {
      min_replicas = insert subset.name (min_of replicas subset) b.min_replicas;
      max_replicas = insert subset.name (max_of replicas subset) b.max_replicas;
    }) in
    if ltb_ℤ (max_of replicas subset) (min_of replicas subset) then none else rest

unfoldable pub validate_and_calculate_min_max : ℤ → List SubsetDef → Option MinMax
unfolding fill_bounds
validate_and_calculate_min_max replicas subsets =
    fill_bounds replicas subsets (record { min_replicas = []; max_replicas = [] })

-- The replicas that are added for a quota: what is left of them, if that is less, but not below 0.
unfoldable pub room : ℤ → ℤ → ℤ → ℤ
room quota replicas allocated = max_ℤ (min_ℤ quota (wrap32 (replicas -ℤ allocated))) (pos 0)

pub record Allocation : Type 0 where
  pub subset_replicas : Replicas
  pub allocated : ℤ

-- Step 1: the minimum of each subset.
unfoldable pub satisfy_min : MinMax → ℤ → List SubsetDef → Allocation → Allocation
satisfy_min b replicas [] s = s
satisfy_min b replicas (subset ∷ subsets) s =
    let add = room (at subset.name b.min_replicas) replicas s.allocated in
    satisfy_min b replicas subsets (record {
      subset_replicas = insert subset.name add s.subset_replicas;
      allocated = wrap32 (s.allocated +ℤ add);
    })

-- Step 2: up to the maximum of each subset.
unfoldable pub satisfy_max : MinMax → ℤ → List SubsetDef → Allocation → Allocation
satisfy_max b replicas [] s = s
satisfy_max b replicas (subset ∷ subsets) s =
    let quota = wrap32 (at subset.name b.max_replicas -ℤ at subset.name b.min_replicas) in
    let add = room quota replicas s.allocated in
    satisfy_max b replicas subsets (record {
      subset_replicas =
          insert subset.name (wrap32 (at subset.name s.subset_replicas +ℤ add)) s.subset_replicas;
      allocated = wrap32 (s.allocated +ℤ add);
    })

unfoldable pub alloc : ℤ → MinMax → List SubsetDef → Replicas
alloc replicas b subsets =
    let s = satisfy_min b replicas subsets (record { subset_replicas = []; allocated = pos 0 }) in
    if leb_ℤ replicas s.allocated
    then s.subset_replicas
    else (satisfy_max b replicas subsets s).subset_replicas

abbrev pub replicas_or_one : Option ℤ → ℤ
replicas_or_one none = pos 1
replicas_or_one (some n) = n

abbrev alloc_within : ℤ → List SubsetDef → Option MinMax → Option Replicas
alloc_within replicas subsets none = none
alloc_within replicas subsets (some b) = some (alloc replicas b subsets)

-- `Alloc`: `none` is the error.
unfoldable pub elastic_alloc : UnitedDeployment → Option Replicas
elastic_alloc ud =
    let replicas = replicas_or_one ud.replicas in
    alloc_within replicas ud.subsets (validate_and_calculate_min_max replicas ud.subsets)

-- `NewReplicaAllocator`: whether the elastic allocator is the one in use.
abbrev pub uses_elastic : List SubsetDef → Bool
uses_elastic [] = false
uses_elastic (subset ∷ subsets) =
    if is_some subset.min_replicas || is_some subset.max_replicas
    then true
    else uses_elastic subsets
