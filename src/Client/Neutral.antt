-- ===== src/Client/Neutral.antt =====
-- The calls of the outside that are no write of a lease, and an invariant that all of them keep.
use gpu_lease.Common.{ℕ, ℤ, String, Option, ◌∷◌, Map}
use gpu_lease.Objects.{GpuLease, Pod, Workload, Selector}
use gpu_lease.PodClient.{ActivateRequest}
use gpu_lease.Exec.{
  Error, Call, State, Trace, event, count_failure, count_promotion, count_demotion, patch_pod,
  post_lease, delete_pod_lease, set_node_gauge, set_pool_gauges,
}
use gpu_lease.Exec.Emits.{Extends, made}
use gpu_lease.Exec.Keeps.{OnRead, OnCall, OnNote}
use gpu_lease.Client.{Api}

-- Every call but the writes of leases keeps `I`.
pub record Neutral {W : Type 0} (I : State W → Type 0) (api : Api W) : Type 0 where
  pub now : (s : State W) → I s → I (record s { world = (api.now s.world).1 })
  pub get_lease : (name : String) → OnRead I (api.get_lease name)
  pub list_leases : OnRead I api.list_leases
  pub get_workload : (namespace name : String) → OnRead I (api.get_workload namespace name)
  pub list_flavors : OnRead I api.list_flavors
  pub get_pod : (namespace name : String) → OnRead I (api.get_pod namespace name)
  pub list_pods : (namespace : String) (sel : Selector) → OnRead I (api.list_pods namespace sel)
  pub get_node : (name : String) → OnRead I (api.get_node name)
  pub list_nodes : OnRead I api.list_nodes
  pub get_deployment : (namespace name : String) → OnRead I (api.get_deployment namespace name)
  pub pod_state :
      (pod_ip : String) (s : State W)
      → I s
      → I (record s { world = (api.pod_state pod_ip s.world).1 })
  pub create_workload :
      (wl : Workload) (namespace name : String)
      → OnCall I (Call.create_workload namespace name) (api.create_workload wl)
  pub delete_workload :
      (namespace name : String)
      → OnCall I (Call.delete_workload namespace name) (api.delete_workload namespace name)
  pub patch : (orig pod : Pod) → OnCall I (patch_pod pod) (api.patch_pod orig pod)
  pub activates :
      (pod_ip : String) (req : ActivateRequest) (s : State W) (e : Option Error)
      → I s
      → I (record {
        world = (api.pod_activate pod_ip req s.world).1;
        trace = record { call = post_lease pod_ip req; error = e } ∷ s.trace;
      })
  pub releases :
      (pod_ip : String) (s : State W) (e : Option Error)
      → I s
      → I (record {
        world = (api.pod_release pod_ip s.world).1;
        trace = record { call = delete_pod_lease pod_ip; error = e } ∷ s.trace;
      })
  pub events : (reason : String) → OnNote I (event reason)
  pub failures : (deployment reason : String) → OnNote I (count_failure deployment reason)
  pub promotions : OnNote I count_promotion
  pub node_gauges : (gauge : String) (values : Map ℕ) → OnNote I (set_node_gauge gauge values)
  pub pool_gauges :
      (namespace deployment : String) (hot warm : ℕ) (desired : ℤ)
      → OnNote I (set_pool_gauges namespace deployment hot warm desired)
  pub demotions : OnNote I count_demotion

-- What is asked of each write of a lease.
pub record LeaseRules : Type 1 where
  pub on_create : GpuLease → Type 0
  pub on_update : GpuLease → Type 0
  pub on_status : GpuLease → Type 0
  pub on_delete : GpuLease → Type 0

abbrev pub no_rules : LeaseRules
no_rules = record {
  on_create = λ l. Unit;
  on_update = λ l. Unit;
  on_status = λ l. Unit;
  on_delete = λ l. Unit;
}

-- The call is no write of a lease, or it is as `rules` ask.
abbrev pub Obeys : LeaseRules → Call → Type 0
Obeys rules (Call.create_lease l) = rules.on_create l
Obeys rules (Call.update_lease l) = rules.on_update l
Obeys rules (Call.update_status l) = rules.on_status l
Obeys rules (Call.delete_lease l) = rules.on_delete l
Obeys rules c = Unit

pub Extends-Neutral :
    {W : Type 0} (api : Api W) (old : Trace) (rules : LeaseRules)
    → Neutral (λ s. Extends (Obeys rules) old s.trace) api
Extends-Neutral api old rules = record {
  now = λ s h. h;
  get_lease = λ n s h. h;
  list_leases = λ s h. h;
  get_workload = λ ns n s h. h;
  list_flavors = λ s h. h;
  get_pod = λ ns n s h. h;
  list_pods = λ ns sel s h. h;
  get_node = λ n s h. h;
  list_nodes = λ s h. h;
  get_deployment = λ ns n s h. h;
  pod_state = λ ip s h. h;
  create_workload = λ wl ns n s e h. made tt h;
  delete_workload = λ ns n s e h. made tt h;
  patch = λ old pod s e h. made tt h;
  activates = λ ip req s e h. made tt h;
  releases = λ ip s e h. made tt h;
  events = λ r s h. made tt h;
  failures = λ d r s h. made tt h;
  promotions = λ s h. made tt h;
  demotions = λ s h. made tt h;
  node_gauges = λ n m s h. made tt h;
  pool_gauges = λ n d h w t s e. made tt e;
}

-- Two invariants at once.
pub Neutral-both :
    {W : Type 0} (I J : State W → Type 0) (api : Api W)
    → Neutral I api
    → Neutral J api
    → Neutral (λ s. I s × J s) api
Neutral-both I J api v u = record {
  now = λ s q. (v.now s q.0, u.now s q.1);
  get_lease = λ n s q. (v.get_lease n s q.0, u.get_lease n s q.1);
  list_leases = λ s q. (v.list_leases s q.0, u.list_leases s q.1);
  get_workload = λ ns n s q. (v.get_workload ns n s q.0, u.get_workload ns n s q.1);
  list_flavors = λ s q. (v.list_flavors s q.0, u.list_flavors s q.1);
  get_pod = λ ns n s q. (v.get_pod ns n s q.0, u.get_pod ns n s q.1);
  list_pods = λ ns sel s q. (v.list_pods ns sel s q.0, u.list_pods ns sel s q.1);
  get_node = λ n s q. (v.get_node n s q.0, u.get_node n s q.1);
  list_nodes = λ s q. (v.list_nodes s q.0, u.list_nodes s q.1);
  get_deployment = λ ns n s q. (v.get_deployment ns n s q.0, u.get_deployment ns n s q.1);
  pod_state = λ ip s q. (v.pod_state ip s q.0, u.pod_state ip s q.1);
  create_workload =
      λ wl ns n s e q. (v.create_workload wl ns n s e q.0, u.create_workload wl ns n s e q.1);
  delete_workload = λ ns n s e q. (v.delete_workload ns n s e q.0, u.delete_workload ns n s e q.1);
  patch = λ o p s e q. (v.patch o p s e q.0, u.patch o p s e q.1);
  activates = λ ip req s e q. (v.activates ip req s e q.0, u.activates ip req s e q.1);
  releases = λ ip s e q. (v.releases ip s e q.0, u.releases ip s e q.1);
  events = λ r s q. (v.events r s q.0, u.events r s q.1);
  failures = λ d r s q. (v.failures d r s q.0, u.failures d r s q.1);
  promotions = λ s q. (v.promotions s q.0, u.promotions s q.1);
  demotions = λ s q. (v.demotions s q.0, u.demotions s q.1);
  node_gauges = λ g m s q. (v.node_gauges g m s q.0, u.node_gauges g m s q.1);
  pool_gauges = λ n d h w t s q. (v.pool_gauges n d h w t s q.0, u.pool_gauges n d h w t s q.1);
}
