-- ===== src/Lib.antt =====
-- gpu-lease: pods of a Deployment are kept warm without a GPU and are given one of their node's GPUs
-- as a lease. These parts work together. The pod (internal/workload) runs a state machine behind an
-- HTTP API. The lease reconciler (internal/controller/gpulease_controller.go) takes a GPULease from
-- its creation through Kueue's admission and the pod's activation to Bound, or to Failed, and tears
-- it down. The inventory and the pod helpers (internal/controller/inventory, pods.go) say which GPUs
-- are free and which pods to promote or demote. The warm pool reconciler
-- (internal/controller/warmpool_controller.go) keeps enough pods warm and hot by creating and deleting
-- leases, which the lease reconciler then works on.
--
-- The files and the code that they are about:
--   Names            api/v1alpha1/names.go: constants, LeaseName; Names/Settings:
--                    ParseDeploymentSettings. Decimal is the part of strconv that they call.
--   Objects          api/v1alpha1/gpulease_types.go and internal/kueue/v1beta2: the objects, with
--                    the fields that the program uses. A message is a constructor for its format.
--   PodClient        internal/controller/podclient/podclient.go: what HTTPClient reads from an
--                    answer; PodClient/Fake: FakeClient.
--   Machine          internal/workload/state.go: one function for each operation, from a machine to
--                    a machine, an error, the event for the hook and the timer that it arms.
--                    Machine/System runs requests and timer firings in any order.
--   PodMetrics       internal/workload/metrics.go: ApplyEvent and ObserveRequest on the values.
--   PodServer        internal/workload/server.go: the handlers, and in PodServer/Routes the routes;
--                    PodServer/Wire joins the handlers to PodClient.
--   Demand           internal/workload/demand.go: applyConfigMap over what the informer delivers.
--   PodConfig        cmd/workload/main.go: loadConfig, from the environment to a new server, and
--                    the exit status of the process.
--   Exec, Client     the calls of the API server, the pods and the clock: a function of a state `W`
--                    that answers them, with errors as values and a trace of the writes. `Api W` is
--                    the record of those calls and `Machinery` that of the helpers of apimachinery
--                    and controllerutil; both are arguments, about which nothing is assumed but
--                    what a theorem names.
--                    Exec/Keeps has the rules for invariants of the state; Client/Neutral asks an
--                    invariant of every call but the writes of leases, so that a proof on a Reconcile
--                    has only those writes to look at. Exec/Known, Exec/Makes and Exec/Brings are
--                    for what has to happen: what a call answers, what a run writes, and what
--                    holds after it.
--   Inventory        internal/controller/inventory/inventory.go
--   Pods             internal/controller/pods.go
--   Kueue            internal/controller/kueue.go
--   LeaseController  internal/controller/gpulease_controller.go: Admission and Phases have a
--                    function for each phase, Release the failure and the deletion, Reconcile the
--                    dispatch. Where the code branches on the answer of a call, a function by
--                    clauses on the answer stands beside the function that makes the call.
--                    Reconcile/Stored is for a lease that the API server keeps over several runs.
--   WarmPool         internal/controller/warmpool_controller.go: promote and demote; WarmPool/Orphans
--                    has reconcileOrphans, WarmPool/Reconcile the decision and the dispatch. In
--                    both reconcilers Setup has SetupWithManager and what it watches.
--   Cluster          the two reconcilers over one store of leases, which others change as well:
--                    Lawful is what the API server documents (names, UIDs, resource versions,
--                    statuses), with reads from a cache, Evolves how leases may change, Runs the
--                    Reconciles and changes in any order.
--   Memory           the zz_generated.deepcopy.go of api/v1alpha1 and internal/kueue/v1beta2: the
--                    structs as they lie in Go's memory, with addresses for pointers, slices and
--                    maps. Memory/Kind is what a struct reads as and what a deep copy has to be; the
--                    copies of apimachinery's own types are an argument, Memory/Embedded.
--   Manager          cmd/manager/main.go: the options for the two servers, where Manager/Slices is
--                    append on arrays that slices may share, and the calls up to the start.
--   Common           tests, lists, maps, integers and sorting that the parts share.
--   Tests            the theorems at concrete inputs.
--
-- Times and durations are nanoseconds: ℕ for a reading of the clock, ℤ for a difference. An int32
-- is a ℤ, and a gpu-count label is parsed with the bounds of an int32. The machine's generation is
-- a uint64 and wraps; a statement on its runs takes fewer than 2^64 inputs. Every loop is
-- structural recursion on a list or on a count; no fuel is used.
--
-- Not modelled: the parsing of flags, signals and the registration of metrics with Prometheus; scheme
-- registration; test/, which runs commands against a cluster; the HTTP transport and JSON, for which
-- the model has the status and the decoded body; the informer of demand.go; the mutex of state.go
-- (each operation is one step) and the time at which a hook runs (with its transition); logs. Events
-- are recorded by their reason.
pub mod Common
pub mod Decimal
pub mod Names
pub mod Objects
pub mod PodClient
pub mod Machine
pub mod PodMetrics
pub mod PodServer
pub mod Demand
pub mod PodConfig
pub mod Exec
pub mod Client
pub mod Inventory
pub mod Pods
pub mod Kueue
pub mod LeaseController
pub mod WarmPool
pub mod Cluster
pub mod Memory
pub mod Manager
pub mod Tests
