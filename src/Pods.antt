-- ===== src/Pods.antt =====
-- internal/controller/pods.go: which pods count, what their labels say, and the order in which they
-- are promoted and demoted.
pub mod Target
pub mod Candidates
pub mod Orphans
use gpu_lease.Common.{
  ℕ, String, Bool, true, false, Option, none, some, List, [], ◌∷◌, str_eq, ℤ, pos, ◌-ℤ◌, ltb_ℤ, ltb,
  ◌==◌, not, ◌&&◌, ◌||◌, Map, put, get_or, is_some, filter, stable_sort, if◌then◌else◌,
}
use gpu_lease.Names.{
  state_label_key, state_warm, state_hot, state_activating, annotation_pod_deletion_cost,
  pod_deletion_cost_warm,
}
use gpu_lease.Objects.{
  Pod, PodCondition, Meta, GpuLease, Selector, Deployment, status_true, reason_pod_gone,
  reason_node_mismatch,
}
use gpu_lease.Exec.{Exec, Error, other, Call, patch_pod, pure, raise, read, perform, ◌>>=◌}
use gpu_lease.Client.{Api}

-- corev1.PodReady and corev1.PodRunning
abbrev pub pod_ready : String
pod_ready = "Ready"

abbrev pub pod_running : String
pod_running = "Running"

ready_in : List PodCondition → Bool
ready_in [] = false
ready_in (c ∷ cs) = if str_eq c.type pod_ready then str_eq c.status status_true else ready_in cs

-- isPodReady
unfoldable pub is_pod_ready : Pod → Bool
unfolding ready_in
is_pod_ready pod = ready_in pod.conditions

-- isPodConsidered
unfoldable pub is_pod_considered : Pod → Bool
is_pod_considered pod =
    if is_some pod.metadata.deletion_timestamp
    then false
    else if str_eq pod.node_name ""
    then false
    else if not (str_eq pod.phase pod_running)
    then false
    else is_pod_ready pod

label_or_warm : Option String → String
label_or_warm none = state_warm
label_or_warm (some s) = if str_eq s "" then state_warm else s

-- podState
unfoldable pub pod_state : Pod → String
unfolding label_or_warm
pod_state pod = label_or_warm (pod.metadata.labels state_label_key)

-- isHeld
unfoldable pub is_held : String → Bool
is_held state = str_eq state state_hot || str_eq state state_activating

-- targetHot
unfoldable pub target_hot : ℕ → ℤ → ℤ → ℤ
target_hot ready_count desired_warm min_hot =
    let t = pos ready_count -ℤ desired_warm in
    let t' = if ltb_ℤ t min_hot then min_hot else t in
    if ltb_ℤ (pos ready_count) t' then pos ready_count else t'

-- freeByNode[node]
unfoldable pub free_on : Map ℕ → Pod → ℕ
free_on free_by_node p = get_or (free_by_node p.node_name) 0

-- The order that sortPromotionCandidates gives to SliceStable.
unfoldable pub promotes_before : Map ℕ → Pod → Pod → Bool
unfolding free_on
promotes_before free_by_node p q =
    let fp = free_on free_by_node p in
    let fq = free_on free_by_node q in
    if not (fp == fq)
    then ltb fq fp
    else ltb p.metadata.creation_timestamp q.metadata.creation_timestamp

unfoldable pub is_eligible : Map ℕ → Pod → Bool
unfolding free_on
is_eligible free_by_node p = ltb 0 (free_on free_by_node p)

-- sortPromotionCandidates
unfoldable pub sort_promotion_candidates : List Pod → Map ℕ → List Pod
sort_promotion_candidates pods free_by_node =
    stable_sort (promotes_before free_by_node) (filter (is_eligible free_by_node) pods)

unfoldable pub demotes_before : Pod → Pod → Bool
demotes_before p q = ltb q.metadata.creation_timestamp p.metadata.creation_timestamp

-- sortDemotionCandidates
unfoldable pub sort_demotion_candidates : List Pod → List Pod
sort_demotion_candidates pods = stable_sort demotes_before pods

-- sel != nil && !sel.Matches(labels)
unfoldable pub deselected : Option Selector → Map String → Bool
deselected none labels = false
deselected (some sel) labels = not (sel.matches labels)

-- leaseOrphanReason of a pod that was found
unfoldable pub orphan_reason_of : Pod → GpuLease → Option Selector → String
unfolding deselected
orphan_reason_of pod lease sel =
    if not (str_eq lease.spec.claim_ref.uid "")
      && not (str_eq pod.metadata.uid lease.spec.claim_ref.uid)
    then reason_pod_gone
    else if is_some pod.metadata.deletion_timestamp || not (is_pod_ready pod)
    then reason_pod_gone
    else if deselected sel pod.metadata.labels
    then reason_pod_gone
    else if not (str_eq pod.node_name lease.spec.node_name)
    then reason_node_mismatch
    else ""

-- leaseOrphanReason; "" is a claim that is still valid
unfoldable pub lease_orphan_reason : Option Pod → GpuLease → Option Selector → String
unfolding orphan_reason_of
lease_orphan_reason none lease sel = reason_pod_gone
lease_orphan_reason (some pod) lease sel = orphan_reason_of pod lease sel

-- The pod that patchPodStateLabel sends.
unfoldable pub with_state_label : Pod → String → Pod
with_state_label pod state = record pod {
  metadata = record (pod.metadata) { labels = put pod.metadata.labels state_label_key state };
}

-- The pod that initializePodWarmState sends.
unfoldable pub with_warm_state : Pod → Pod
with_warm_state pod = record pod {
  metadata = record (pod.metadata) {
    labels = put pod.metadata.labels state_label_key state_warm;
    annotations = put pod.metadata.annotations annotation_pod_deletion_cost pod_deletion_cost_warm;
  };
}

-- deploymentSelector
unfoldable pub deployment_selector : Deployment → Option Selector
deployment_selector dep = elim dep.selector [ none ↦ none | some sel ↦ sel ]

module _ {W : Type 0} (api : Api W) where
  unfoldable pub list_selected : String → Option Selector → Exec W (List Pod)
  list_selected namespace none = raise other
  list_selected namespace (some sel) = read (api.list_pods namespace sel)

  -- listDeploymentPods
  unfoldable pub list_deployment_pods : Deployment → Exec W (List Pod)
  unfolding list_selected
  list_deployment_pods dep = list_selected dep.metadata.namespace (deployment_selector dep)

  -- patchPodStateLabel
  unfoldable pub patch_pod_state_label : Pod → String → Exec W Pod
  patch_pod_state_label pod state =
      perform (patch_pod (with_state_label pod state))
        (api.patch_pod pod (with_state_label pod state))

  -- initializePodWarmState
  unfoldable pub initialize_pod_warm_state : Pod → Exec W Pod
  initialize_pod_warm_state pod =
      perform (patch_pod (with_warm_state pod)) (api.patch_pod pod (with_warm_state pod))
