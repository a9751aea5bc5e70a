-- ===== src/Names.antt =====
-- api/v1alpha1/names.go: the vocabulary that the other packages share, and the settings of a
-- Deployment. A time.Duration is a number of nanoseconds, an integer.
pub mod Injective
pub mod Settings
use Prim.Native.String.{◌++◌}
use gpu_lease.Common.{ℕ, ◌*◌, String, Bool, get_or, str_eq, ℤ, pos, Map}
use gpu_lease.Decimal.{format_int}

abbrev pub finalizer : String
finalizer = "poc.llm-d.ai/release-lease"

abbrev pub state_label_key : String
state_label_key = "gpu-lease.llm-d.ai/state"

abbrev pub state_warm : String
state_warm = "warm"

abbrev pub state_activating : String
state_activating = "activating"

abbrev pub state_hot : String
state_hot = "hot"

abbrev pub state_releasing : String
state_releasing = "releasing"

abbrev pub annotation_managed : String
annotation_managed = "gpu-lease.llm-d.ai/managed"

abbrev pub annotation_warm_replicas : String
annotation_warm_replicas = "gpu-lease.llm-d.ai/warm-replicas"

abbrev pub annotation_min_hot_replicas : String
annotation_min_hot_replicas = "gpu-lease.llm-d.ai/min-hot-replicas"

abbrev pub annotation_local_queue : String
annotation_local_queue = "gpu-lease.llm-d.ai/local-queue"

abbrev pub annotation_pod_capacity_rps : String
annotation_pod_capacity_rps = "gpu-lease.llm-d.ai/pod-capacity-rps"

abbrev pub annotation_activation_timeout : String
annotation_activation_timeout = "gpu-lease.llm-d.ai/activation-timeout"

abbrev pub annotation_admission_timeout : String
annotation_admission_timeout = "gpu-lease.llm-d.ai/admission-timeout"

abbrev pub annotation_lease : String
annotation_lease = "gpu-lease.llm-d.ai/lease"

abbrev pub annotation_gpu_id : String
annotation_gpu_id = "gpu-lease.llm-d.ai/gpu-id"

abbrev pub annotation_gpu_model : String
annotation_gpu_model = "gpu-lease.llm-d.ai/gpu-model"

abbrev pub annotation_pod_deletion_cost : String
annotation_pod_deletion_cost = "controller.kubernetes.io/pod-deletion-cost"

abbrev pub pod_deletion_cost_hot : String
pod_deletion_cost_hot = "100"

abbrev pub pod_deletion_cost_warm : String
pod_deletion_cost_warm = "-100"

abbrev pub node_label_gpu_count : String
node_label_gpu_count = "poc.llm-d.ai/gpu-count"

abbrev pub node_label_gpu_model : String
node_label_gpu_model = "poc.llm-d.ai/gpu-model"

abbrev pub kueue_resource_name : String
kueue_resource_name = "poc.llm-d.ai/gpu"

-- time.Second
abbrev pub second : ℕ
second = 1_000_000_000

abbrev pub default_warm_replicas : ℤ
default_warm_replicas = pos 2

abbrev pub default_min_hot_replicas : ℤ
default_min_hot_replicas = pos 1

abbrev pub default_pod_capacity_rps : ℤ
default_pod_capacity_rps = pos 10

abbrev pub default_activation_timeout : ℤ
default_activation_timeout = pos (120 * second)

abbrev pub default_admission_timeout : ℤ
default_admission_timeout = pos (60 * second)

-- LeaseName
unfoldable pub lease_name : String → ℤ → String
lease_name node gpu_id = node ++ ("-gpu-" ++ format_int gpu_id)

-- DefaultLocalQueueName
unfoldable pub default_local_queue_name : String → String
default_local_queue_name deployment = deployment ++ "-gpu"

-- IsManaged
unfoldable pub is_managed : Map String → Bool
is_managed annotations = str_eq (get_or (annotations annotation_managed) "") "true"
