-- ===== src/WarmPool/Setup/Wakes.antt =====
-- The events that make the warm pool reconcile a Deployment.
use gpu_lease.Common.{
  String, true, false, some, List, [], ◌∷◌, ℤ, str_eq, In, ◌≡◌, refl, ap, arith, inl, inr,
}
use gpu_lease.Names.{is_managed}
use gpu_lease.Names.Settings.{DeploymentSettings}
use gpu_lease.Objects.{Deployment, Selector, Pod}
use gpu_lease.Exec.{ok}
use gpu_lease.Pods.{deployment_selector}
use gpu_lease.WarmPool.{new_lease}
use gpu_lease.WarmPool.Reconcile.{selecting, map_pod_to_deployment, map_lease_to_deployment}
use gpu_lease.WarmPool.Setup.{Event, of_deployment, of_pod, of_lease, key_of, requests}

-- Which objects a Deployment is about: itself, the pods that its selector matches, and the leases
-- that the warm pool creates for it.
pub data Concerns (dep : Deployment) : Event → Type 0 where
  itself : Concerns dep (of_deployment dep)
  its_pod :
      (pod : Pod) (sel : Selector)
      → deployment_selector dep ≡ some sel
      → sel.is_empty ≡ false
      → sel.matches pod.metadata.labels ≡ true
      → Concerns dep (of_pod pod)
  its_lease :
      (settings : DeploymentSettings) (pod : Pod) (node model : String) (id : ℤ)
      → Concerns dep (of_lease (new_lease dep settings pod node model id))

selecting-finds :
    (pod : Pod) (dep : Deployment) (sel : Selector) (deps : List Deployment)
    → In dep deps
    → is_managed dep.metadata.annotations ≡ true
    → deployment_selector dep ≡ some sel
    → sel.is_empty ≡ false
    → sel.matches pod.metadata.labels ≡ true
    → In (key_of dep) (selecting pod deps)
unfolding selecting
selecting-finds pod dep sel [] i managed s ne m = elim i [ ]
selecting-finds pod dep sel (d ∷ deps) (inl e) managed s ne m =
    rw (e, managed, s, ne, m) (inl (ap key_of e))
selecting-finds pod dep sel (d ∷ deps) (inr i) managed s ne m =
    ground (arith, selecting-finds pod dep sel deps i managed s ne m)

-- Each event of a managed Deployment with a name, of a pod that its selector matches, or of a lease
-- that acquireLeaseOnNode built for it, makes the warm pool reconcile the Deployment, where the list
-- of the Deployments has it.
pub requests-Concerns :
    (dep : Deployment) (deps : List Deployment) (e : Event)
    → In dep deps
    → is_managed dep.metadata.annotations ≡ true
    → str_eq dep.metadata.name "" ≡ false
    → Concerns dep e
    → In (key_of dep) (requests (ok deps) e)
unfolding requests map_pod_to_deployment map_lease_to_deployment new_lease
requests-Concerns dep deps _ i managed named itself = rw managed (inl refl)
requests-Concerns dep deps _ i managed named (its_pod _ sel s ne m) =
    selecting-finds _ dep sel deps i managed s ne m
requests-Concerns dep deps _ i managed named (its_lease _ _ _ _ _) = rw named (inl refl)
