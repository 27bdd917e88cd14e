-- ===== src/CloneSet/Diff/Numbers.antt =====
-- The parts of the calculation, over any limits and counters.
use kruise.Prelude.{ℕ, ◌≡◌, ap, Bool, true, false, arith, if◌then◌else◌}
use kruise.Prelude.Int.{
  ℤ, pos, ◌+ℤ◌, ◌-ℤ◌, ◌≤ℤ◌, ◌<ℤ◌, pos_part, neg_part, ltb_ℤ, min_ℤ, max_ℤ, abs_ℤ, min_ℤ_cases,
  max_ℤ_cases, +ℤ_parts, -ℤ_parts, int_order, int_laws,
}
use kruise.Util.Tools.{int_abs}
use kruise.CloneSet.Diff.{
  Limits, Counts, UpdateDiffs, Surge, total_to_delete, total_unavailable, scale_surge, update_surge,
  cap_surge, surge, current, update_diffs, update_num, diffs_of, ExpectationDiffs,
}

int_abs_nonneg : (i : ℤ) → pos 0 ≤ℤ int_abs i
unfolding int_abs abs_ℤ
int_abs_nonneg i = ground (arith, -ℤ_parts (pos 0) i)

pub record IsSurge (s : Surge) : Type 0 where
  pub total : pos 0 ≤ℤ s.use_surge
  pub old : pos 0 ≤ℤ s.old_revision

scale_surge-IsSurge : (l : Limits) (c : Counts) → IsSurge (scale_surge l c)
unfolding scale_surge
scale_surge-IsSurge l c =
    let n = pos (total_to_delete c) in
    let a = pos (total_unavailable c) +ℤ n -ℤ l.max_unavailable in
    let s = min_ℤ (max_ℤ a (pos 0)) n in
    ground (
      arith,
      max_ℤ_cases a (pos 0),
      min_ℤ_cases (max_ℤ a (pos 0)) n,
      -ℤ_parts s (pos c.new.to_delete),
    )

update_surge-IsSurge : (d : UpdateDiffs) → IsSurge (update_surge d)
unfolding update_surge
update_surge-IsSurge d = ground (arith, int_abs_nonneg d.old, int_abs_nonneg d.new)

-- The surge in use: between 0 and the maximum, and the old part within it.
pub record IsSurgeUpTo (max_surge : ℤ) (s : Surge) : Type 0 where
  pub total : pos 0 ≤ℤ s.use_surge
  pub capped : s.use_surge ≤ℤ max_ℤ max_surge (pos 0)
  pub old : pos 0 ≤ℤ s.old_revision
  pub within : s.old_revision ≤ℤ s.use_surge

cap_surge-IsSurgeUpTo : (m : ℤ) (s : Surge) → pos 0 <ℤ m → IsSurge s → IsSurgeUpTo m (cap_surge m s)
unfolding cap_surge
cap_surge-IsSurgeUpTo m s h v = omega (int_order, v)

pub surge-IsSurgeUpTo :
    (l : Limits) (c : Counts) (d : UpdateDiffs) → IsSurgeUpTo l.max_surge (surge l c d)
unfolding surge
surge-IsSurgeUpTo l c d = ground (
  arith,
  max_ℤ_cases l.max_surge (pos 0),
  cap_surge-IsSurgeUpTo l.max_surge (scale_surge l c),
  scale_surge-IsSurge l c,
  cap_surge-IsSurgeUpTo l.max_surge (update_surge d),
  update_surge-IsSurge d,
)

-- Scaling: exactly one of growing, shrinking and resting, to the number that is expected.
pub record IsScaling (expected now deleted : ℤ) (d : ExpectationDiffs) : Type 0 where
  pub up_nonneg : pos 0 ≤ℤ d.scale_up_num
  pub down_nonneg : pos 0 ≤ℤ d.scale_down_num
  pub up : pos 0 <ℤ d.scale_up_num → now +ℤ d.scale_up_num ≡ expected
  pub down : pos 0 <ℤ d.scale_down_num → now -ℤ deleted -ℤ d.scale_down_num ≡ expected
  pub enough : d.scale_up_num ≡ pos 0 → expected ≤ℤ now
  pub not_too_many : d.scale_down_num ≡ pos 0 → now -ℤ deleted ≤ℤ expected

positive_or_zero : ℤ → ℤ
positive_or_zero x = if ltb_ℤ (pos 0) x then x else pos 0

record IsDifference (expected now x : ℤ) : Type 0 where
  nonneg : pos 0 ≤ℤ x
  exact : pos 0 <ℤ x → now +ℤ x ≡ expected
  enough : x ≡ pos 0 → expected ≤ℤ now

difference : (expected now : ℤ) → IsDifference expected now (positive_or_zero (expected -ℤ now))
unfolding positive_or_zero
difference expected now =
    let x = expected -ℤ now in
    let sum : now +ℤ x ≡ expected = omega int_laws in
    ground (arith, -ℤ_parts expected now, +ℤ_parts now x)

subtract : (e x r : ℤ) → e +ℤ x ≡ r → r -ℤ x ≡ e
subtract e x r h = omega (int_laws, ap pos_part h, ap neg_part h)

max_or_zero : (b : Bool) (x : ℤ) → pos 0 ≤ℤ (if b then max_ℤ x (pos 0) else pos 0)
max_or_zero true x = omega int_order
max_or_zero false x = omega arith

limited :
    (up y : ℤ)
    → let limit = if ltb_ℤ (pos 0) up then min_ℤ up (max_ℤ y (pos 0)) else pos 0 in
      (pos 0 ≤ℤ limit) × (limit ≤ℤ positive_or_zero up)
unfolding positive_or_zero
limited up y = ground (arith, min_ℤ_cases up (max_ℤ y (pos 0)), max_ℤ_cases y (pos 0))

module _ (l : Limits) (c : Counts) (pods : ℕ) (exclude : Bool) (d : UpdateDiffs) where
  abbrev expected : ℤ
  expected = l.replicas +ℤ (surge l c d).use_surge

  abbrev now : ℤ
  now = (current exclude pods c).total

  abbrev marked : ℤ
  marked = pos c.old.to_delete +ℤ pos c.new.to_delete

  pub diffs_of-IsScaling : IsScaling expected now marked (diffs_of l c pods exclude d)
  unfolding diffs_of positive_or_zero
  diffs_of-IsScaling =
      let up = difference expected now in
      let rest = now -ℤ pos c.old.to_delete -ℤ pos c.new.to_delete in
      let down = difference rest expected in
      let same : now -ℤ marked ≡ rest = omega int_laws in
      record {
        up_nonneg = up.nonneg;
        down_nonneg = down.nonneg;
        up = up.exact;
        down = λ h. rw same (subtract expected _ rest (down.exact h));
        enough = up.enough;
        not_too_many = λ h. rw same (down.enough h);
      }

  -- What is reported besides the numbers themselves stays within them.
  pub record IsWithin (e : ExpectationDiffs) : Type 0 where
    pub limit_nonneg : pos 0 ≤ℤ e.scale_up_limit
    pub limit_le : e.scale_up_limit ≤ℤ e.scale_up_num
    pub up_old_nonneg : pos 0 ≤ℤ e.scale_up_num_old_revision
    pub down_old_nonneg : pos 0 ≤ℤ e.scale_down_num_old_revision
    pub delete_ready_nonneg : pos 0 ≤ℤ e.delete_ready_limit

  pub diffs_of-IsWithin : IsWithin (diffs_of l c pods exclude d)
  unfolding diffs_of
  diffs_of-IsWithin =
      let up = limited (expected -ℤ now) (l.scale_max_unavailable -ℤ pos (total_unavailable c)) in
      record {
        limit_nonneg = up.0;
        limit_le = unfold positive_or_zero in up.1;
        up_old_nonneg = max_or_zero _ _;
        down_old_nonneg = max_or_zero _ _;
        delete_ready_nonneg = max_or_zero _ _;
      }

-- Where pods only move forward, the number to update is what the old revision has too many, or
-- what the new one lacks, whichever is less.
abbrev pub surplus : Limits → Counts → ℤ
surplus l c = max_ℤ (pos c.old.active -ℤ l.partition) (pos 0)

abbrev pub lacking : Limits → Counts → ℤ
lacking l c = max_ℤ (l.replicas -ℤ l.partition -ℤ pos c.new.active) (pos 0)

forward_num :
    (a b : ℤ)
    → update_num (record { old = max_ℤ a (pos 0); new = min_ℤ b (pos 0) })
      ≡ min_ℤ (max_ℤ a (pos 0)) (max_ℤ (pos 0 -ℤ b) (pos 0))
unfolding update_num int_abs abs_ℤ min_ℤ max_ℤ
forward_num a b = ground (arith, -ℤ_parts (pos 0) b, -ℤ_parts (pos 0) (pos 0))

pub update_num-forward :
    (l : Limits) (c : Counts)
    → update_num (update_diffs true l c) ≡ min_ℤ (surplus l c) (lacking l c)
unfolding update_diffs
update_num-forward l c =
    let b = pos c.new.active -ℤ (l.replicas -ℤ l.partition) in
    let flip : pos 0 -ℤ b ≡ l.replicas -ℤ l.partition -ℤ pos c.new.active = omega int_laws in
    rw (← flip) (forward_num (pos c.old.active -ℤ l.partition) b)
