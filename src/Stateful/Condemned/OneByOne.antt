-- ===== src/Stateful/Condemned/OneByOne.antt =====
-- The condemned pods go one at a time.
use kruise.Prelude.{
  ℕ, ◌-◌, ◌≡◌, ◌⊎◌, inl, inr, refl, ap, Bool, true, false, Option, List, [], ◌∷◌, ◌++◌, Bool-cases,
}
use kruise.Prelude.Int.{pos}
use kruise.Util.LifecycleState
use kruise.Stateful.Types.{Pod, Sent, deletes, moves, is_running_and_available}
use kruise.Stateful.Pass.{
  Pass, Run, monotonic, counts_down, delete_pod, get_min_ready_seconds, push_after,
}
use kruise.Stateful.Pass.Log.{delete_pod-Deletes, Deletes, refused, kept, gone, prepared}
use kruise.Stateful.Replicas.{Looped, over, through}
use kruise.Stateful.Replicas.Ordered.{run_of}
use kruise.Stateful.Condemned.{terminate_condemned, terminated, pod_key, is_at}

abbrev pub available : Pass → Pod → Bool
available p pod = (is_running_and_available (pos p.world.now) (get_min_ready_seconds p.set) pod).0

-- The deletion of a pod, or its step to PreparingDelete.
abbrev pub IsSentFor : Pod → List Sent → List Sent → Type 0
IsSentFor pod log log' =
    (log' ≡ deletes pod ∷ log) ⊎ (log' ≡ moves pod LifecycleState.preparing_delete ∷ log)

-- Nothing was sent, or the pass is over with one pod on its way, which was not terminating. With the
-- policy OrderedReady it is the first of the condemned pods, and is available or the unhealthy one
-- that may go.
pub data OneByOne (p : Pass) (first : Option ℕ) (pods : List Pod) (i : ℕ) (log : List Sent)
    : Looped → Type 0 where
  nothing_sent : (l : Looped) → (run_of l).log ≡ log → OneByOne p first pods i log l
  one_sent :
      (r : Run) (before : List Pod) (pod : Pod) (after : List Pod)
      → pods ≡ before ++ pod ∷ after
      → pod.terminating ≡ false
      → (monotonic p ≡ true → (before ≡ []) × ((available p pod ≡ true) ⊎ (is_at i first ≡ true)))
      → IsSentFor pod log r.log
      → OneByOne p first pods i log (over false r)

-- Whatever the API server answers, and with either policy: the loop sends nothing, or deletes one of
-- the condemned pods that was not terminating, or moves it to PreparingDelete, and the pass is over.
-- With the policy OrderedReady that pod is the first one given, and it is available or the unhealthy
-- one that may go.
pub terminate_condemned-OneByOne :
    (p : Pass) (first : Option ℕ) (pods : List Pod) (i : ℕ) (r : Run)
    → OneByOne p first pods i r.log (terminate_condemned p first pods i r)
unfolding terminate_condemned
terminate_condemned-OneByOne p first [] i r = nothing_sent (through r) refl
terminate_condemned-OneByOne p first (pod ∷ pods) i r =
    at (terminate_condemned-OneByOne p first pods (i - 1)) (Bool-cases pod.terminating)
      (Bool-cases (monotonic p)) (Bool-cases (available p pod)) (Bool-cases (is_at i first))
  where
    later :
        {l : Looped}
        → monotonic p ≡ false
        → OneByOne p first pods (i - 1) r.log l
        → OneByOne p first (pod ∷ pods) i r.log l
    later eager (nothing_sent l same) = nothing_sent l same
    later eager (one_sent r' before q after same live _ sent) =
        one_sent r' (pod ∷ before) q after (ap (◌∷◌ pod) same) live (λ m. cc) sent

    head :
        (r' : Run)
        → pod.terminating ≡ false
        → (monotonic p ≡ true → (available p pod ≡ true) ⊎ (is_at i first ≡ true))
        → IsSentFor pod r.log r'.log
        → OneByOne p first (pod ∷ pods) i r.log (over false r')
    head r' live may sent = one_sent r' [] pod pods refl live (λ m. (refl, may m)) sent

    may_go :
        (kept_later : Looped)
        → (monotonic p ≡ false → OneByOne p first (pod ∷ pods) i r.log kept_later)
        → (o : Option (Bool × List Sent)) → Deletes pod r.log o
        → pod.terminating ≡ false
        → (monotonic p ≡ true → (available p pod ≡ true) ⊎ (is_at i first ≡ true))
        → OneByOne p first (pod ∷ pods) i r.log (terminated p pod kept_later r o)
    may_go kept_later go o refused live may = nothing_sent (over true r) refl
    may_go kept_later go o kept live may = elim (Bool-cases (monotonic p)) [
      | inl m ↦ rw m (nothing_sent _ refl)
      | inr e ↦ rw e (go e)
    ]
    may_go kept_later go o gone live may = head _ live may (inl refl)
    may_go kept_later go o prepared live may = head _ live may (inr refl)

    at :
        ((r' : Run)
          → OneByOne p first pods (i - 1) r'.log (terminate_condemned p first pods (i - 1) r'))
        → (pod.terminating ≡ true) ⊎ (pod.terminating ≡ false)
        → (monotonic p ≡ true) ⊎ (monotonic p ≡ false)
        → (available p pod ≡ true) ⊎ (available p pod ≡ false)
        → (is_at i first ≡ true) ⊎ (is_at i first ≡ false)
        → OneByOne p first (pod ∷ pods) i r.log (terminate_condemned p first (pod ∷ pods) i r)
    at ih (inl on) (inl m) c d = simp (on, m) (nothing_sent (over false r) refl)
    at ih (inl on) (inr e) c d = simp (on, e) (later e (ih r))
    at ih (inr live) b (inl up) d =
        simp (live, up)
          (may_go _ (λ e. later e (ih (record r { status = counts_down p pod r.status }))) _
            (delete_pod-Deletes p pod r.log) live (λ m. inl up))
    at ih (inr live) b (inr down) (inl here) =
        simp (live, down, here)
          (may_go _ (λ e. later e (ih (record r { status = counts_down p pod r.status }))) _
            (delete_pod-Deletes p pod r.log) live (λ m. inr here))
    at ih (inr live) (inl m) (inr down) (inr other) =
        simp (live, down, other, m)
          (nothing_sent (over false (push_after (pod_key p pod) _ r)) refl)
    at ih (inr live) (inr e) (inr down) (inr other) =
        simp (live, down, other, e)
          (may_go
            (terminate_condemned p first pods (i - 1)
              (record r { status = counts_down p pod r.status }))
            (λ e'. later e' (ih (record r { status = counts_down p pod r.status })))
            (delete_pod p pod r.log) (delete_pod-Deletes p pod r.log) live (λ m. cc))
