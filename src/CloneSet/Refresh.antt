-- ===== src/CloneSet/Refresh.antt =====
-- `refreshPodState` and `fixPodTemplateHashLabel` of pkg/controller/cloneset/sync/cloneset_update.go:
-- the lifecycle states through which an update leads a pod.
pub mod Settles
mod Examples
use kruise.Prelude.{
  ℕ, zero, suc, String, str_eq, Bool, true, false, ◌&&◌, ◌||◌, not, Option, none, some, List, [],
  ◌∷◌, is_some, if◌then◌else◌,
}
use kruise.Prelude.Int.{ℤ, pos, ltb_ℤ}
use kruise.Prelude.Assoc.{lookup}
use kruise.Util.LifecycleState
use kruise.Util.Pods.{
  Pod, Lifecycle, LifecycleHook, get_pod_lifecycle_state, is_pod_all_hooked,
  is_hook_mark_pod_not_ready, equal_to_revision_hash, label, get_short_hash,
  controller_revision_hash_key,
}
use kruise.Util.Requeue.{push}
use kruise.Expectations.ResourceVersion
use kruise.CloneSet.Writes.{
  Api, Written, LifecycleUpdate, failed, unchanged, updated, update_pod_lifecycle, note, moves,
  fixes,
}
use kruise.CloneSet.NewPods.{pod_template_hash_key}

abbrev pub pre_normal_hook : Option Lifecycle → Option LifecycleHook
pre_normal_hook none = none
pre_normal_hook (some l) = l.pre_normal

abbrev pub in_place_hook : Option Lifecycle → Option LifecycleHook
in_place_hook none = none
in_place_hook (some l) = l.in_place_update

-- There is no hook, or it has all its labels and finalizers on the pod.
abbrev pub is_through : Option LifecycleHook → Pod → Bool
is_through none pod = true
is_through (some h) pod = is_pod_all_hooked (some h) pod

-- Where an update in place has come to an end.
abbrev pub after_update : Option Lifecycle → Pod → String
after_update lifecycle pod =
    if is_some lifecycle && not (is_pod_all_hooked (in_place_hook lifecycle) pod)
    then LifecycleState.updated
    else LifecycleState.normal

-- The state that follows, if the pod may go on: the switch of `refreshPodState`. `completed` tells
-- whether the kubelet has carried out the update.
unfoldable pub next_state : Option Lifecycle → String → Bool → Pod → Option String
unfolding get_pod_lifecycle_state
next_state lifecycle update_revision completed pod =
    let state = get_pod_lifecycle_state pod in
    if str_eq state LifecycleState.preparing_normal
    then if is_through (pre_normal_hook lifecycle) pod then some LifecycleState.normal else none
    else if str_eq state LifecycleState.preparing_update
    then if equal_to_revision_hash pod update_revision
      then some (after_update lifecycle pod)
      else none
    else if str_eq state LifecycleState.updating
    then if completed then some (after_update lifecycle pod) else none
    else if str_eq state LifecycleState.updated
    then if is_through (in_place_hook lifecycle) pod then some LifecycleState.normal else none
    else none

-- What pkg/util/inplaceupdate answers: `Refresh`, with `none` for an error, and
-- `CheckPodUpdateCompleted`. Then a patch of the hash label.
pub record InPlace : Type 0 where
  pub refresh : Pod → Option ℤ
  pub is_completed : Pod → Bool
  pub patch_hash : Pod → String → Option ResourceVersion.Object

pub record Refreshed : Type 0 where
  pub written : Written
  pub modified : Bool
  pub duration : ℤ
  pub failed : Bool

abbrev pub moved : Pod → String → ℤ → Written → LifecycleUpdate → Refreshed
moved pod state delay w failed = record {
  written = w;
  modified = false;
  duration = pos 0;
  failed = true;
}
moved pod state delay w unchanged = record {
  written = w;
  modified = false;
  duration = delay;
  failed = false;
}
moved pod state delay w (updated got) = record {
  written = note (moves pod.name state) got w;
  modified = true;
  duration = delay;
  failed = false;
}

abbrev pub refreshed : Api → Option Lifecycle → Pod → ℤ → Written → Option String → Refreshed
refreshed api lifecycle pod delay w none = record {
  written = w;
  modified = false;
  duration = delay;
  failed = false;
}
refreshed api lifecycle pod delay w (some state) =
    moved pod state delay w
      (update_pod_lifecycle api pod state (is_hook_mark_pod_not_ready (in_place_hook lifecycle)))

unfoldable pub refresh_pod_state :
    Api → InPlace → Option Lifecycle → String → Pod → Written → Refreshed
unfolding next_state
refresh_pod_state api in_place lifecycle update_revision pod w = elim (in_place.refresh pod) [
  | none ↦ record { written = w; modified = false; duration = pos 0; failed = true }
  | some delay ↦
      refreshed api lifecycle pod delay w
        (next_state lifecycle update_revision (in_place.is_completed pod) pod)
]

abbrev pub fixed : Pod → Written → Option ResourceVersion.Object → Refreshed
fixed pod w none = record { written = w; modified = false; duration = pos 0; failed = true }
fixed pod w (some got) = record {
  written = note (fixes pod.name) got w;
  modified = true;
  duration = pos 0;
  failed = false;
}

unfoldable pub fix_pod_template_hash_label : InPlace → Pod → Written → Refreshed
unfolding get_short_hash
fix_pod_template_hash_label in_place pod w =
    if is_some (lookup pod_template_hash_key pod.labels)
    then record { written = w; modified = false; duration = pos 0; failed = false }
    else fixed pod w
        (in_place.patch_hash pod (get_short_hash (label controller_revision_hash_key pod)))

abbrev pub pushed : String → ℤ → Written → Written
pushed key delay w =
    if ltb_ℤ (pos 0) delay then record w { requeue = push w.requeue key delay } else w

-- The first loop of `Update`.
unfoldable pub refresh_pods :
    Api → InPlace → String → Option Lifecycle → String → List Pod → Written → Bool → Refreshed
unfolding refresh_pod_state fix_pod_template_hash_label
refresh_pods api in_place key lifecycle update_revision [] w modified = record {
  written = w;
  modified = modified;
  duration = pos 0;
  failed = false;
}
refresh_pods api in_place key lifecycle update_revision (pod ∷ pods) w modified =
    let a = refresh_pod_state api in_place lifecycle update_revision pod w in
    let b = fix_pod_template_hash_label in_place pod (pushed key a.duration a.written) in
    let rest =
      refresh_pods api in_place key lifecycle update_revision pods b.written
        (modified || (a.modified || b.modified)) in
    if a.failed then a else if b.failed then b else rest
