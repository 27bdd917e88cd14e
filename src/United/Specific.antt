-- ===== src/United/Specific.antt =====
-- The specific allocator of allocator.go: subsets with a number of replicas of their own keep it,
-- and the rest is shared out evenly.
pub mod Shares
pub mod Sums
pub mod Totals
mod Examples
use kruise.Prelude.{
  ℕ, zero, suc, ◌+◌, ◌-◌, String, Bool, true, false, ◌&&◌, not, Option, none, some, List, [], ◌∷◌,
  if◌then◌else◌, ◌==◌, length, count, is_some,
}
use kruise.Prelude.Int.{ℤ, pos, negsuc, ◌+ℤ◌, ◌-ℤ◌, ltb_ℤ, eqb_ℤ, quot_ℤ, rem_ℤ, wrap32}
use kruise.Prelude.Assoc.{Assoc, lookup, insert}
use kruise.Util.Tools.{IntOrString}
use kruise.United.Types.{SubsetDef, UnitedDeployment, parse_subset_replicas}
use kruise.United.Sums.{Replicas, at}

pub record NameToReplicas : Type 0 where
  pub subset_name : String
  pub replicas : ℤ
  pub specified : Bool

abbrev set_parsed : String → Option ℤ → Replicas → Replicas
set_parsed name none m = m
set_parsed name (some n) m = insert name n m

abbrev set_specified : ℤ → String → Option IntOrString → Replicas → Replicas
set_specified replicas name none m = m
set_specified replicas name (some r) m = set_parsed name (parse_subset_replicas replicas r) m

abbrev specified_from : ℤ → List SubsetDef → Replicas → Replicas
specified_from replicas [] m = m
specified_from replicas (s ∷ ss) m =
    specified_from replicas ss (set_specified replicas s.name s.replicas m)

unfoldable pub get_specified_subset_replicas : ℤ → List SubsetDef → Replicas
get_specified_subset_replicas replicas subsets = specified_from replicas subsets []

-- `current` has the replicas of the subsets that exist.
unfoldable pub get_subset_infos : Replicas → List SubsetDef → List NameToReplicas
get_subset_infos current [] = []
get_subset_infos current (s ∷ ss) =
    record { subset_name = s.name; replicas = at s.name current; specified = false }
    ∷ get_subset_infos current ss

abbrev sum32 : Replicas → ℤ → ℤ
sum32 [] n = n
sum32 ((name, r) ∷ m) n = sum32 m (wrap32 (n +ℤ r))

abbrev pub is_specified : Replicas → NameToReplicas → Bool
is_specified limits i = is_some (lookup i.subset_name limits)

-- Whether there is no error. -1 stands for replicas that are not given.
unfoldable pub validate_replicas : ℤ → Replicas → List NameToReplicas → Bool
validate_replicas replicas limits infos =
    let specified_replicas = sum32 limits (pos 0) in
    let all_specified = count (is_specified limits) infos == length infos in
    if eqb_ℤ replicas (negsuc 0)
    then all_specified
    else if ltb_ℤ replicas specified_replicas
    then false
    else not (ltb_ℤ specified_replicas replicas && all_specified)

abbrev mark_with : NameToReplicas → Option ℤ → NameToReplicas
mark_with i none = i
mark_with i (some n) = record i { replicas = n; specified = true }

-- Step 1: the specified subsets.
abbrev pub mark : Replicas → List NameToReplicas → List NameToReplicas
mark limits [] = []
mark limits (i ∷ is) = mark_with i (lookup i.subset_name limits) ∷ mark limits is

abbrev pub specified_sum : Replicas → List NameToReplicas → ℤ → ℤ
specified_sum limits [] n = n
specified_sum limits (i ∷ is) n =
    specified_sum limits is
      (if is_specified limits i then wrap32 (n +ℤ at i.subset_name limits) else n)

-- What is left to share: the remainder, and the subsets, of which none is left after the last.
pub record Left : Type 0 where
  pub remainder : ℕ
  pub subsets : ℕ

-- One round of the loop of step 2, which stops once no subset is left.
abbrev pub give : ℤ → NameToReplicas → Left → NameToReplicas × Left
give average i left =
    if left.subsets == 0
    then (i, left)
    else if i.specified
    then (i, left)
    else if left.remainder == 0
    then (
      record i { replicas = wrap32 average },
      record { remainder = 0; subsets = left.subsets - 1 },
    )
    else (
      record i { replicas = wrap32 (average +ℤ pos 1) },
      record { remainder = left.remainder - 1; subsets = left.subsets - 1 },
    )

-- The loop runs from the last subset to the first.
abbrev pub share_out : ℤ → List NameToReplicas → Left → List NameToReplicas × Left
share_out average [] left = ([], left)
share_out average (i ∷ is) left =
    let (is', left') = share_out average is left in
    let (i', left'') = give average i left' in (i' ∷ is', left'')

abbrev positive_part : ℤ → ℕ
positive_part (pos n) = n
positive_part (negsuc n) = 0

unfoldable pub normal_allocate : ℤ → Replicas → List NameToReplicas → List NameToReplicas
normal_allocate expected limits infos =
    let n = length infos - count (is_specified limits) infos in
    let allocatable = wrap32 (expected -ℤ specified_sum limits infos (pos 0)) in
    let marked = mark limits infos in
    if n == 0
    then marked
    else (share_out (quot_ℤ allocatable n) marked
        (record { remainder = positive_part (rem_ℤ allocatable n); subsets = n })).0

abbrev to_subset_replica_map : List NameToReplicas → Replicas → Replicas
to_subset_replica_map [] m = m
to_subset_replica_map (i ∷ is) m = to_subset_replica_map is (insert i.subset_name i.replicas m)

abbrev replicas_or_unset : Option ℤ → ℤ
replicas_or_unset none = negsuc 0
replicas_or_unset (some n) = n

-- `Alloc`, where `sort` is `sort.Sort` by replicas and name; `none` is the error.
unfoldable pub specific_alloc :
    (List NameToReplicas → List NameToReplicas) → UnitedDeployment → Replicas → Option Replicas
specific_alloc sort ud current =
    let expected = replicas_or_unset ud.replicas in
    let infos = sort (get_subset_infos current ud.subsets) in
    let limits = get_specified_subset_replicas expected ud.subsets in
    if validate_replicas expected limits infos
    then some (to_subset_replica_map (normal_allocate expected limits infos) [])
    else none
