-- ===== src/Lib.antt =====
-- The control plane of Kruise: controllers that keep workloads of Kubernetes at their specification.
--
-- A controller reads pods and its own object from a cache that lags behind the API server, computes
-- what is missing, and writes to the server. Its expectations record what it has written and not yet
-- seen in the cache, so that it does not act on a stale view. The files follow the directories of
-- the repository.
--
-- Prelude: lists, Boolean tests and maps, and integers over the native numbers. A Go map is an
--   association list in some order of iteration (Prelude/Assoc), a `sets.String` a list of names.
--   Prelude/Decimal reads numbers as `strconv.ParseUint` and `strconv.Atoi` do.
-- Expectations: pkg/util/expectations. ResourceVersion has the versions of an object that are
--   awaited, Scale the pods that are to appear or to vanish, Update the pods that are to reach a
--   revision. Each method is a function from the state of the store to its new state; the mutex of
--   a store makes a method atomic. A `time.Time` that is zero is `none`, and the clock is an
--   argument of the methods that read it.
-- Util: pkg/util. Tools has the partitions and percentages of tools.go; Pods has the labels,
--   finalizers, hooks and revisions of a pod (lifecycle/lifecycle_utils.go, revision/revision.go,
--   specifieddelete/specified_delete.go), on the states of LifecycleState (apis/apps/pub); Requeue
--   is requeueduration/duration.go; Batch is `DoItSlowly` of
--   pkg/controller/cloneset/utils/cloneset_utils.go, and `SlowStartBatch` of tools.go by index;
--   Scatter is updatesort/scatter_sort.go, with the comparison of float32 numbers as a parameter;
--   Priority is the test by which updatesort/priority_sort.go sorts.
-- CloneSet: pkg/controller/cloneset/sync. Diff is `calculateDiffsWithExpectation` of
--   cloneset_sync_utils.go, in the parts in which the source computes it: limits, counts, surplus of
--   each revision, surge, numbers. Limit is `limitUpdateIndexes` of cloneset_update.go. Types has
--   the fields of the API type that these read, and the environment of a reconcile. Writes is what a
--   sync writes: the expectations, the requeue durations and a log of the creations and deletions
--   that were sent, with the answers of the API server (`Api`), which may depend on all that was
--   sent before. Deletion and Creation are the loops of cloneset_scale.go over it, NewPods the ids
--   and the pods that are made (with core/cloneset_core.go and utils/cloneset_utils.go), Scaling
--   their composition in `Scale`. The ranking of the pods, the order of a set of names and the
--   random texts are parameters; of those texts, at most `fuel` are drawn for one id. Refresh has
--   the states through which `refreshPodState` leads a pod, Updating the rest of `Update` in
--   cloneset_update.go. What pkg/util/inplaceupdate answers is a field of what these are given.
--   Reconcile composes them behind the guards on the expectations, as `doReconcile` does
--   (pkg/controller/cloneset/cloneset_controller.go).
-- Stateful: pkg/controller/statefulset. Ordinals has the range of ordinals of stateful_set_utils.go,
--   Names the names of pods and how they are read; a text is there the list of its code points. The
--   other files are stateful_set_control.go: Types has what it reads of a StatefulSet and its pods,
--   and the World that answers it; Pass the state of one pass and the deletion of a pod; Tally,
--   Replicas and Condemned the parts of `updateStatefulSet` in which it counts the pods, brings the
--   replicas up and takes the others down; Refresh and InPlace the steps of a pod through its
--   lifecycle, Rolling the update of the pods, with `sortPodsToUpdate` of stateful_update_utils.go;
--   History the revisions; Control the composition of these in
--   `UpdateStatefulSet`. Volumes, claims and sorting by priority are answers of the World.
-- United: pkg/controller/uniteddeployment. Types has `ParseSubsetReplicas` of
--   uniteddeployment_controller_utils.go, Elastic and Specific the two allocators of allocator.go,
--   whose maps are those of Sums; `sort.Sort` is a parameter. The text of a percentage is read as
--   `strconv.ParseInt` reads it.
-- Budget: pkg/control/pubcontrol. Admission is pub_control_utils.go: an attempt reads a copy of the
--   budget, takes one off it and writes it, and is made again on a conflict, four times at most.
--   The API server is the parameter `write`, the caches are what a `Round` says that they hold.
--   Recount is pkg/controller/podunavailablebudget/podunavailablebudget_controller.go: the status,
--   computed anew from the pods.
-- Spread: pkg/util/workloadspread/workloadspread.go, with the subset of a pod that is created or
--   deleted; the statuses are those of the version of the pod, which are
--   already there. Spread.Status is the recount of
--   pkg/controller/workloadspread/workloadspread_controller.go.
--
-- Numbers. A Go `int` is an integer without bound: the values are sums of a few int32 and of
-- lengths of slices, which 64 bits hold. An int32 that may leave its range is cut to 32 bits
-- (`wrap32`); a counter of pods is not.
-- What goes through a float64 is a parameter (`scale` of Util.Tools) or a field of the environment
-- (`Env` of CloneSet.Types), as are the feature gates and the readiness of a pod, which vendored
-- code decides. Reading or cutting a slice out of range is `none`, or a case of its own
-- (`panics` of Stateful.History), where the source would panic.
-- Loops are recursion on the slice. `batches` of Util.Batch is given one round more than there are
-- items, which is enough: when no call fails every item has been tried. `replicas_from` of
-- Stateful.Ordinals has a round for each replica and each reserved ordinal, and one more, which is
-- enough; `decimal` of Stateful.Names has one more than the number. The fuel of `draw` of
-- CloneSet.NewPods is a parameter: the source draws until a text is new.
--
-- Not modelled: logs, metrics and events; the API machinery and other vendored code; generated
-- clients; admission webhooks; the node daemon; the controllers that have no module here.
pub mod Prelude
pub mod Expectations
pub mod Util
pub mod CloneSet
pub mod Stateful
pub mod United
pub mod Budget
pub mod Spread
