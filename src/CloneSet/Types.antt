-- ===== src/CloneSet/Types.antt =====
-- The parts of apis/apps/v1alpha1/cloneset_types.go that pkg/controller/cloneset/sync reads, and
-- what the controller takes from outside: pod readiness, percentages and feature gates.
use kruise.Prelude.{
  String, str_eq, Bool, false, ◌&&◌, ◌||◌, not, Option, none, some, List, if◌then◌else◌,
}
use kruise.Prelude.Int.{ℤ, pos}
use kruise.Prelude.Assoc.{Assoc, lookup, has}
use kruise.Util.Tools.{IntOrString, str}
use kruise.Util.LifecycleState
use kruise.Util.Pods.{Pod, Lifecycle, get_pod_lifecycle_state, is_specified_delete}

pub record ScaleStrategy : Type 0 where
  pub pods_to_delete : List String
  pub max_unavailable : Option IntOrString

pub record UpdateStrategy : Type 0 where
  pub partition : Option IntOrString
  pub max_unavailable : Option IntOrString
  pub max_surge : Option IntOrString
  pub paused : Bool

pub record CloneSet : Type 0 where
  pub labels : Assoc String
  -- `*cs.Spec.Replicas`, which the webhooks fill in.
  pub replicas : ℤ
  pub scale_strategy : ScaleStrategy
  pub update_strategy : UpdateStrategy
  pub min_ready_seconds : ℤ
  pub lifecycle : Option Lifecycle

-- What is not under the controller's hand.
pub record Env : Type 0 where
  -- `coreControl.IsPodUpdateReady`: the status of the pod, with a minimum time of readiness.
  pub is_pod_update_ready : Pod → ℤ → Bool
  -- The floating-point part of `GetScaledValueFromIntOrPercent`.
  pub scale : String → ℤ → Bool → Option ℤ
  -- The value of `intstr.GetValueFromIntOrPercent`, which is 0 on an error.
  pub get_value_from_int_or_percent : IntOrString → ℤ → Bool → ℤ
  -- Feature gates, and a flag of the command line.
  pub clone_set_partition_rollback : Bool
  pub preparing_update_as_update : Bool
  pub scaling_exclude_preparing_delete : Bool

abbrev pub value_or_default : Option IntOrString → IntOrString → IntOrString
value_or_default none d = d
value_or_default (some v) d = v

abbrev pub default_max_unavailable : IntOrString
default_max_unavailable = str "20%"

abbrev pub max_int32 : ℤ
max_int32 = pos 2147483647

abbrev pub scaling_exclude_key : String
scaling_exclude_key = "apps.kruise.io/cloneset-scaling-exclude-preparing-delete"

abbrev or_empty : Option String → String
or_empty none = ""
or_empty (some v) = v

unfoldable pub should_scaling_exclude_preparing_delete : Env → CloneSet → Bool
should_scaling_exclude_preparing_delete env cs =
    env.scaling_exclude_preparing_delete
    || str_eq (or_empty (lookup scaling_exclude_key cs.labels)) "true"

-- `isSpecifiedDelete`: by the label of the pod, or by its name in the scale strategy.
unfoldable pub is_pod_specified_delete : CloneSet → Pod → Bool
is_pod_specified_delete cs pod =
    is_specified_delete pod || has pod.name cs.scale_strategy.pods_to_delete

unfoldable pub is_pod_available : Env → Pod → ℤ → Bool
unfolding get_pod_lifecycle_state
is_pod_available env pod min_ready_seconds =
    let state = get_pod_lifecycle_state pod in
    if not (str_eq state "") && not (str_eq state LifecycleState.normal)
    then false
    else env.is_pod_update_ready pod min_ready_seconds

unfoldable pub is_pod_ready : Env → Pod → Bool
is_pod_ready env pod = is_pod_available env pod (pos 0)
