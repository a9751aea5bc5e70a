-- ===== src/Demand.antt =====
-- internal/workload/demand.go: the demand that a ConfigMap gives. The informer is not modelled: a run
-- is the list of what it delivers to the handlers of Run. The hook onUpdate is set, as NewServer does. `V` stands for float64, and `parse_float` for
-- strconv.ParseFloat; a warning is a constructor for its format.
pub mod Fallback
use gpu_lease.Common.{
  String, Bool, true, false, Option, none, some, List, [], ◌∷◌, str_eq, Map, if◌then◌else◌,
}

pub data Warning : Type 0 where
  no_warning : Warning
  missing_key : Warning
  not_a_number : (raw : String) → Warning

unfoldable pub same_warning : Warning → Warning → Bool
same_warning no_warning no_warning = true
same_warning missing_key missing_key = true
same_warning (not_a_number a) (not_a_number b) = str_eq a b
same_warning _ _ = false

-- DemandWatcher, with the values that it published and the warnings that it logged, newest first.
pub record Watcher (V : Type 0) : Type 0 where
  pub namespace : String
  pub cm_name : String
  pub deployment : String
  pub value : V
  pub last_warning : Warning
  pub published : List V
  pub logged : List Warning

-- DefaultDemandConfigMapName
abbrev pub default_demand_config_map_name : String
default_demand_config_map_name = "gpu-lease-demand"

-- What the informer hands to AddFunc, UpdateFunc (the new object) and DeleteFunc.
pub data Delivery : Type 0 where
  added updated : Map String → Delivery
  deleted : Delivery

-- NewDemandWatcher; `zero_value` is the float 0.
unfoldable pub new_demand_watcher :
    {V : Type 0} → V → (namespace cm_name deployment : String) → Watcher V
new_demand_watcher zero_value namespace cm_name deployment = record {
  namespace = namespace;
  cm_name = if str_eq cm_name "" then default_demand_config_map_name else cm_name;
  deployment = deployment;
  value = zero_value;
  last_warning = no_warning;
  published = [];
  logged = [];
}

module _ {V : Type 0} where
  -- publish
  unfoldable pub publish : Watcher V → V → Watcher V
  publish w v = record w { published = v ∷ w.published }

  -- warnOnce
  unfoldable pub warn_once : Watcher V → Warning → Watcher V
  unfolding same_warning
  warn_once w msg =
      if same_warning w.last_warning msg
      then w
      else record w { last_warning = msg; logged = msg ∷ w.logged }

  -- The two ways out of applyConfigMap with a warning; fallback reads the value.
  unfoldable pub keep_value : Watcher V → Warning → Watcher V
  unfolding warn_once publish
  keep_value w msg = publish (warn_once w msg) w.value

  -- applyConfigMap, by the parse of the entry
  unfoldable pub apply_parsed : Watcher V → String → Option V → Watcher V
  unfolding keep_value publish
  apply_parsed w raw none = keep_value w (not_a_number raw)
  apply_parsed w raw (some v) = publish (record w { value = v; last_warning = no_warning }) v

-- The gauge of the demand, which SetDemandRPS of metrics.go gives each published value.
unfoldable pub demand_gauge : {V : Type 0} → V → List V → V
demand_gauge initial [] = initial
demand_gauge initial (v ∷ vs) = v

module _ {V : Type 0} (parse_float : String → Option V) where
  unfoldable pub apply_entry : Watcher V → Option String → Watcher V
  unfolding apply_parsed keep_value
  apply_entry w none = keep_value w missing_key
  apply_entry w (some raw) = apply_parsed w raw (parse_float raw)

  -- applyConfigMap
  unfoldable pub apply_config_map : Watcher V → Map String → Watcher V
  unfolding apply_entry
  apply_config_map w data_ = apply_entry w (data_ w.deployment)

  -- The handlers of Run
  unfoldable pub handle : Watcher V → Delivery → Watcher V
  unfolding apply_config_map
  handle w (added cm) = apply_config_map w cm
  handle w (updated cm) = apply_config_map w cm
  handle w deleted = w

  -- What Run does with the deliveries, in their order
  unfoldable pub apply_all : Watcher V → List Delivery → Watcher V
  unfolding handle
  apply_all w [] = w
  apply_all w (d ∷ ds) = apply_all (handle w d) ds
