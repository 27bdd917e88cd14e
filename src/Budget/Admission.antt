-- ===== src/Budget/Admission.antt =====
-- pkg/control/pubcontrol/pub_control_utils.go: may a pod be taken down? A request reads the budget,
-- takes one off what is allowed, and writes it back; on a conflict it reads again.
pub mod Decrement
pub mod Quota
mod Examples
use kruise.Prelude.{
  ℕ, zero, suc, ◌+◌, String, str_eq, Bool, true, false, ◌||◌, not, Option, none, some, List, [],
  ◌∷◌, if◌then◌else◌, ltb, length, is_some,
}
use kruise.Prelude.Int.{ℤ, pos, ◌-ℤ◌, ltb_ℤ, leb_ℤ, eqb_ℤ, wrap32}
use kruise.Prelude.Assoc.{has, lookup, insert}
use kruise.Budget.Types.{Pub, Status, Operation, update, delete, evict, operation_name, split_comma}

abbrev pub max_unavailable_pod_size : ℕ
max_unavailable_pod_size = 2000

abbrev is_update : Operation → Bool
is_update update = true
is_update delete = false
is_update evict = false

-- The status once the pod is recorded.
abbrev record_pod : String → ℕ → Operation → Status → Status
record_pod pod_name now operation s =
    if is_update operation
    then record s { unavailable_pods = insert pod_name now s.unavailable_pods }
    else record s { disrupted_pods = insert pod_name now s.disrupted_pods }

-- `none` is the error that forbids the operation. A nil map is an empty one.
unfoldable pub check_and_decrement : String → ℕ → Operation → Pub → Option Pub
check_and_decrement pod_name now operation p =
    let s = p.status in
    if leb_ℤ s.unavailable_allowed (pos 0)
    then none
    else if ltb max_unavailable_pod_size (length s.disrupted_pods + length s.unavailable_pods)
    then none
    else some (record p {
      status =
          record_pod pod_name now operation
            (record s { unavailable_allowed = wrap32 (s.unavailable_allowed -ℤ pos 1) });
    })

unfoldable pub is_pod_recorded_in_pub : String → Pub → Bool
is_pod_recorded_in_pub pod_name p =
    is_some (lookup pod_name p.status.unavailable_pods)
    || is_some (lookup pod_name p.status.disrupted_pods)

abbrev protects : Option String → Operation → Bool
protects none operation = true
protects (some value) operation =
    if str_eq value "" then true else has (operation_name operation) (split_comma value)

unfoldable pub is_need_pub_protection : Pub → Operation → Bool
is_need_pub_protection p operation = protects p.protect_operations operation

-- How the API server answers a write: with the object as it is stored now, or with an error, which
-- may be that the object has changed since it was read.
pub data UpdateResult : Type 0 where
  updated : Pub → UpdateResult
  conflict : UpdateResult
  failed : UpdateResult

pub data Outcome : Type 0 where
  allowed : Outcome
  forbidden : Outcome
  conflicted : Outcome
  broken : Outcome

abbrev pub is_allowed : Outcome → Bool
is_allowed allowed = true
is_allowed forbidden = false
is_allowed conflicted = false
is_allowed broken = false

abbrev pub is_conflicted : Outcome → Bool
is_conflicted allowed = false
is_conflicted forbidden = false
is_conflicted conflicted = true
is_conflicted broken = false

-- What one attempt finds: the answer of the API server to a Get, the copy in the global cache, that
-- of the informer, the time, and what others have made of the stored object before the attempt.
pub record Round : Type 0 where
  pub got : Option Pub
  pub local_cached : Option Pub
  pub informer_cached : Option Pub
  pub now : ℕ
  pub others : Pub → Pub

pub record Request : Type 0 where
  pub pod_name : String
  pub operation : Operation
  pub dry_run : Bool
  -- The annotation pub-no-protect is "true".
  pub no_protection : Bool
  pub is_ready : Bool
  pub is_state_consistent : Bool

abbrev or_given : Option Pub → Pub → Pub
or_given none given = given
or_given (some p) given = p

-- `int64_of` is the number that `Convert_string_To_int64` leaves for a resource version, and
-- `write stored p` is the API server's answer to writing the status of `p`.
module _ (int64_of : String → ℤ) (write : Pub → Pub → UpdateResult) where
  abbrev newer : Option Pub → Pub → Pub
  newer none p = p
  newer (some informer) p =
      if ltb_ℤ (int64_of p.resource_version) (int64_of informer.resource_version)
      then informer
      else p

  -- The copy that an attempt works on; `none` is the error of the Get.
  unfoldable pub read : Bool → Pub → Round → Option Pub
  read true given round = round.got
  read false given round = some (newer round.informer_cached (or_given round.local_cached given))

  abbrev pub written : Pub → UpdateResult → Pub × Outcome
  written stored (updated p) = (p, allowed)
  written stored conflict = (stored, conflicted)
  written stored failed = (stored, broken)

  abbrev decided : Request → Pub → Option Pub → Pub × Outcome
  decided r stored none = (stored, forbidden)
  decided r stored (some p) =
      if r.dry_run then (stored, allowed) else written stored (write stored p)

  abbrev with_copy : Request → Pub → ℕ → Option Pub → Pub × Outcome
  with_copy r stored now none = (stored, broken)
  with_copy r stored now (some p) =
      decided r stored (check_and_decrement r.pod_name now r.operation p)

  -- The body of the loop, with the object that is stored before it and after it.
  unfoldable pub attempt : Request → Bool → Pub → Round → Pub → Pub × Outcome
  attempt r refresh given round stored = with_copy r stored round.now (read refresh given round)

  -- `retry.RetryOnConflict`: the body is run again, up to `steps` times in all, while it conflicts.
  unfoldable pub retry_on_conflict : ℕ → Request → Bool → Pub → (ℕ → Round) → Pub → Pub × Outcome
  retry_on_conflict zero r refresh given rounds stored = (stored, conflicted)
  retry_on_conflict (suc steps) r refresh given rounds stored =
      let (next, outcome) = attempt r refresh given (rounds steps) ((rounds steps).others stored) in
      let rest = retry_on_conflict steps r true given rounds next in
      if is_conflicted outcome then rest else (next, outcome)

  abbrev pub conflict_retry_steps : ℕ
  conflict_retry_steps = 4

  -- `found` is the budget of the pod: `none` is an error, and `some none` that there is none.
  unfoldable pub pod_unavailable_budget_validate_pod :
      Request → Option (Option Pub) → (ℕ → Round) → Pub → Pub × Outcome
  pod_unavailable_budget_validate_pod r none rounds stored =
      if r.no_protection || (not r.is_ready || not r.is_state_consistent)
      then (stored, allowed)
      else (stored, broken)
  pod_unavailable_budget_validate_pod r (some none) rounds stored = (stored, allowed)
  pod_unavailable_budget_validate_pod r (some (some given)) rounds stored =
      if r.no_protection || (not r.is_ready || not r.is_state_consistent)
      then (stored, allowed)
      else if eqb_ℤ given.status.desired_available (pos 0)
      then (stored, allowed)
      else if not (is_need_pub_protection given r.operation)
      then (stored, allowed)
      else if is_pod_recorded_in_pub r.pod_name given
      then (stored, allowed)
      else retry_on_conflict conflict_retry_steps r false given rounds stored
