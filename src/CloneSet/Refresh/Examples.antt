-- ===== src/CloneSet/Refresh/Examples.antt =====
-- Runs of the refresh of a pod, and the theorem at them.
use kruise.Prelude.{◌≡◌, refl, Bool, true, false, Option, none, some, [], ◌∷◌, inl, inr}
use kruise.Util.LifecycleState
use kruise.Util.Pods.{Pod, Lifecycle, set_pod_lifecycle, get_pod_lifecycle_state, is_pod_all_hooked}
use kruise.CloneSet.Refresh.{next_state}
use kruise.CloneSet.Refresh.Settles.{round, IsAtRest, round-IsAtRest}

-- The hook of an update in place, which the owner of the pods takes off and puts back.
abbrev lifecycle : Option Lifecycle
lifecycle = some (record {
  pre_delete = none;
  in_place_update = some (record {
    labels_handler = ("unready-blocker", "true") ∷ [];
    finalizers_handler = [];
    mark_pod_not_ready = false;
  });
  pre_normal = none;
})

abbrev updating_pod : Pod
updating_pod = record {
  name = "a";
  uid = "a";
  labels =
      (LifecycleState.key, LifecycleState.updating)
      ∷ ("controller-revision-hash", "cs-new")
      ∷ ("unready-blocker", "true")
      ∷ [];
  finalizers = [];
}

abbrev completed : Pod → Bool
completed p = true

without_label : Pod
without_label = record updating_pod { labels = (LifecycleState.key, LifecycleState.updating) ∷ [] }

-- Without the label of the hook the pod waits in Updated.
waits_for_hook : next_state lifecycle "cs-new" true without_label ≡ some LifecycleState.updated
unfolding next_state without_label get_pod_lifecycle_state is_pod_all_hooked
waits_for_hook = refl

round-IsAtRest_example :
    IsAtRest lifecycle "cs-new" completed
      (round lifecycle "cs-new" completed (round lifecycle "cs-new" completed updating_pod))
unfolding is_pod_all_hooked set_pod_lifecycle get_pod_lifecycle_state
round-IsAtRest_example =
    round-IsAtRest lifecycle "cs-new" completed updating_pod (inr (inr (inl (refl, refl)))) refl
      refl (λ state. (refl, refl))
