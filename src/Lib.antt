-- ===== src/Lib.antt =====
-- The reconcilers of reconciler-runtime, a library for Kubernetes controllers, modelled and verified.
--
-- A controller hands a resource to a tree of sub reconcilers. They read and write the resource and
-- the cluster, return a result (when to be called again) and an error, and may halt the tree. On the
-- way they keep the conditions of the resource's status, watch other objects by leases, hold the
-- resource back from deletion by finalizers, and create, update or delete the objects it calls for.
--
--   Conditions       apis/conditionset.go, apis/status_types.go: the condition manager. A call takes
--                    the manager and returns it with the accessor's new status; `now` is a field. The
--                    writers take `rfc3339_copy`, the rounding of times in the metav1 package, first.
--                    `sort.Slice` is insertion into a sorted list, which is stable: with no type twice,
--                    as `IsManaged` has it, there is one sorted list. A formatted message is one text.
--   Tracker          tracker/enqueue.go, tracker/interface.go: `impl` as two association lists. A
--                    call is one step, which the mutex makes it, and takes the time. Go's order of
--                    iteration is the order of the list; the observers are compared as sets.
--   Errors, Results, Context   reconcilers/reconcilers.go, time/now.go and the iteration of
--                    reconcilers/flow.go: error chains, `AggregateResults`, and the stashed values as
--                    a record.
--   Exec             What Go code does when it runs: it returns or panics. `exhausted` stands for a
--                    loop that has used up its fuel.
--   Flow             reconcilers/flow.go (IfThen, While, TryCatch, OverrideSetup),
--                    reconcilers/sequence.go, reconcilers/sync.go, reconcilers/config.go (WithConfig)
--                    and reconcilers/finalizer.go, each with its validation, its setup and its
--                    `Reconcile`. They act on any type of state: the resource, which is passed by
--                    pointer, and all that is reached beside it. Finalizer fixes that state to a
--                    resource, its events and a world.
--   Stash            reconcilers/stash.go: the map that the reconcilers of a request share, as a part of
--                    the state beside the cluster.
--   ResourceReconciler   reconcilers/resource.go: the root of a tree, on the state of Flow.Finalizer.
--                    The status is what reflection finds of it.
--   Manager          reconcilers/resourcemanager.go: `Manage` on the state of Flow.Finalizer.
--   ChildReconciler  reconcilers/child.go: one child, brought to what is desired by Manager. The known
--                    children, which the context holds, are an argument.
--   ChildSetReconciler   reconcilers/childset.go: a sequence of child reconcilers, one for each
--                    identifier, whose results are collected in the stash.
--   AggregateReconciler  reconcilers/aggregate.go: one named resource, itself brought to what is
--                    desired by Manager.
--   Webhook          reconcilers/webhook.go: sub reconcilers that answer admission requests; the response
--                    that they share is a part of the state.
--   CastResource     reconcilers/cast.go: a reconciler of another type, by way of JSON.
--   Watching         reconcilers/config.go (TrackAndGet, TrackAndList) and `EnqueueTracked` of
--                    reconcilers/reconcilers.go: what is read is tracked, and an event on it enqueues
--                    the request. They act on the tracker and the cluster of one config.
--   Duck             duck/client.go: the client that takes duck typed objects. A client is a record of
--                    its methods; a method takes the object that is passed by pointer and returns it.
--   Base             numbers, texts, lists and maps that the parts share.
--
-- Only the loop of While takes fuel, one for each round: with a limit on the iterations, the limit
-- and one more is enough. A limit of zero is no limit, and then no fuel need be enough.
-- What the code calls and does not contain is a parameter, the record `External` of each part, and
-- `is_deleting` of a sync reconciler. What is asked of them is a hypothesis of the theorem that needs
-- it.
--
-- Not modelled: logging; Watch of the duck client; helpers that reflect on types
-- (reconcilers/util.go, reconcilers/cmp.go, internal/util.go); the resource types and HTTP requests
-- on a context; and the support for tests (testing).
pub mod Base
pub mod Errors
pub mod Results
pub mod Conditions
pub mod Tracker
pub mod Exec
pub mod Context
pub mod Flow
pub mod Stash
pub mod ResourceReconciler
pub mod Manager
pub mod ChildReconciler
pub mod ChildSetReconciler
pub mod AggregateReconciler
pub mod Webhook
pub mod CastResource
pub mod Watching
pub mod Duck
mod Tests
