-- ===== src/Util/Pods.antt =====
-- What the controllers read of a pod: pkg/util/lifecycle, pkg/util/revision,
-- pkg/util/specifieddelete, and the lifecycle of apis/apps/pub/lifecycle.go.
pub mod Labels
use Prim.Native.Char.{code}
use kruise.Prelude.{
  String, str_eq, Bool, true, false, ◌&&◌, ◌||◌, Option, none, some, List, [], ◌∷◌, is_some,
  if◌then◌else◌, ◌==◌,
}
use kruise.Util.LifecycleState
use kruise.Prelude.Assoc.{Assoc, lookup, insert, has}

pub record Pod : Type 0 where
  pub name : String
  pub uid : String
  pub labels : Assoc String
  pub finalizers : List String

-- Reading a missing key of a Go map of strings gives the empty text.
abbrev pub label : String → Pod → String
label key pod = elim (lookup key pod.labels) [ none ↦ "" | some v ↦ v ]

unfoldable pub get_pod_lifecycle_state : Pod → String
get_pod_lifecycle_state pod = label LifecycleState.key pod

pub record LifecycleHook : Type 0 where
  pub labels_handler : Assoc String
  pub finalizers_handler : List String
  pub mark_pod_not_ready : Bool

pub record Lifecycle : Type 0 where
  pub pre_delete : Option LifecycleHook
  pub in_place_update : Option LifecycleHook
  pub pre_normal : Option LifecycleHook

unfoldable pub is_hook_mark_pod_not_ready : Option LifecycleHook → Bool
is_hook_mark_pod_not_ready none = false
is_hook_mark_pod_not_ready (some h) = h.mark_pod_not_ready

unfoldable pub is_lifecycle_mark_pod_not_ready : Option Lifecycle → Bool
unfolding is_hook_mark_pod_not_ready
is_lifecycle_mark_pod_not_ready none = false
is_lifecycle_mark_pod_not_ready (some l) =
    is_hook_mark_pod_not_ready l.pre_delete || is_hook_mark_pod_not_ready l.in_place_update

abbrev any_finalizer : List String → Pod → Bool
any_finalizer [] pod = false
any_finalizer (f ∷ fs) pod = has f pod.finalizers || any_finalizer fs pod

abbrev any_label : Assoc String → Pod → Bool
any_label [] pod = false
any_label ((k, v) ∷ m) pod = str_eq (label k pod) v || any_label m pod

abbrev all_finalizers : List String → Pod → Bool
all_finalizers [] pod = true
all_finalizers (f ∷ fs) pod = has f pod.finalizers && all_finalizers fs pod

abbrev all_labels : Assoc String → Pod → Bool
all_labels [] pod = true
all_labels ((k, v) ∷ m) pod = str_eq (label k pod) v && all_labels m pod

unfoldable pub is_pod_hooked : Option LifecycleHook → Pod → Bool
is_pod_hooked none pod = false
is_pod_hooked (some h) pod =
    any_finalizer h.finalizers_handler pod || any_label h.labels_handler pod

unfoldable pub is_pod_all_hooked : Option LifecycleHook → Pod → Bool
is_pod_all_hooked none pod = false
is_pod_all_hooked (some h) pod =
    all_finalizers h.finalizers_handler pod && all_labels h.labels_handler pod

-- The label part of `SetPodLifecycle`; the annotation holds the time only.
unfoldable pub set_pod_lifecycle : String → Pod → Pod
set_pod_lifecycle state pod = record pod { labels = insert LifecycleState.key state pod.labels }

abbrev pub specified_delete_key : String
specified_delete_key = "apps.kruise.io/specified-delete"

abbrev pub is_specified_delete : Pod → Bool
is_specified_delete pod = is_some (lookup specified_delete_key pod.labels)

-- What stands behind the last "-", if there is one.
after_dash : String → Option String
after_dash String.[] = none
after_dash (String.◌∷◌ c s) = elim (after_dash s) [
  | some t ↦ some t
  | none ↦ if code c == b'-' then some s else none
]

unfoldable pub get_short_hash : String → String
unfolding after_dash
get_short_hash hash = elim (after_dash hash) [ none ↦ hash | some t ↦ t ]

abbrev pub controller_revision_hash_key : String
controller_revision_hash_key = "controller-revision-hash"

unfoldable pub equal_to_revision_hash : Pod → String → Bool
unfolding get_short_hash
equal_to_revision_hash pod hash =
    let obj_hash = label controller_revision_hash_key pod in
    if str_eq obj_hash hash then true else str_eq (get_short_hash hash) (get_short_hash obj_hash)

-- `gate` is the feature gate PreparingUpdateAsUpdate.
unfoldable pub is_pod_update : Bool → Pod → String → Bool
unfolding get_pod_lifecycle_state
is_pod_update gate pod update_revision =
    if gate && str_eq (get_pod_lifecycle_state pod) LifecycleState.preparing_update
    then true
    else equal_to_revision_hash pod update_revision
