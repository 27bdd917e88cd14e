-- ===== src/Util/Requeue.antt =====
-- pkg/util/requeueduration/duration.go: the shortest time after which a workload is looked at
-- again. A duration is an integer of nanoseconds.
pub mod Shortest
mod Examples
use kruise.Prelude.{String, Bool, true, false, ◌&&◌, ◌||◌, Option, none, some, if◌then◌else◌}
use kruise.Prelude.Int.{ℤ, pos, ltb_ℤ, leb_ℤ}
use kruise.Prelude.Assoc.{Assoc, lookup, insert, erase}

pub record Duration : Type 0 where
  pub duration : ℤ
  pub message : String

abbrev pub zero_duration : Duration
zero_duration = record { duration = pos 0; message = "" }

-- A new duration counts if it is positive, and shorter than the one that is held, if any.
abbrev pub is_shorter : ℤ → Duration → Bool
is_shorter new rd = ltb_ℤ (pos 0) new && (leb_ℤ rd.duration (pos 0) || ltb_ℤ new rd.duration)

unfoldable pub update : Duration → ℤ → Duration
update rd new = if is_shorter new rd then record rd { duration = new } else rd

unfoldable pub update_with_msg : Duration → ℤ → String → Duration
update_with_msg rd new message =
    if is_shorter new rd then record { duration = new; message = message } else rd

unfoldable pub merge : Duration → Duration → Duration
merge rd rd2 = update_with_msg rd rd2.duration rd2.message

abbrev pub DurationStore : Type 0
DurationStore = Assoc Duration

abbrev or_zero : Option Duration → Duration
or_zero none = zero_duration
or_zero (some d) = d

-- `sync.Map.LoadOrStore`, then `Update` on the shared pointer.
unfoldable pub push : DurationStore → String → ℤ → DurationStore
push dm key new = insert key (update (or_zero (lookup key dm)) new) dm

unfoldable pub pop : DurationStore → String → DurationStore × ℤ
pop dm key = elim (lookup key dm) [ none ↦ (dm, pos 0) | some d ↦ (erase key dm, d.duration) ]
