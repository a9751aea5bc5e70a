-- ===== src/Tests/ManagerExamples.antt =====
-- A manager whose two servers have certificates of their own, and the events of a Deployment.
use gpu_lease.Common.{
  ◌≡◌, ℕ, String, Bool, true, false, none, some, [], ◌∷◌, In, inl, refl, put, empty,
}
use Prim.Native.String.{◌++◌}
use gpu_lease.Names.{annotation_managed, is_managed}
use gpu_lease.Pods.{deployment_selector}
use gpu_lease.Objects.{Deployment, Selector, new_meta}
use gpu_lease.Exec.{ok}
use gpu_lease.Manager.{Flags, default_flags, Call, new_process, main}
use gpu_lease.Manager.Tls.{TlsConfig, Orderly}
use gpu_lease.Manager.Start.{Started, main-Orderly}
use gpu_lease.WarmPool.Setup.{of_pod, key_of, requests}
use gpu_lease.WarmPool.Setup.Wakes.{its_pod, requests-Concerns}
use gpu_lease.Tests.Fixtures.{pod_named}

abbrev with_certificates : Flags
with_certificates = record default_flags {
  webhook_cert_path = "/webhook";
  metrics_cert_path = "/metrics";
}

abbrev never_fails : Call → Bool
never_fails c = false

abbrev join_paths : String → String → String
join_paths path name = path ++ ("/" ++ name)

abbrev exact : ℕ → ℕ
exact n = n

abbrev default_tls : TlsConfig
default_tls = record { next_protos = "h2" ∷ ("http/1.1" ∷ []); certificate = none }

main-Orderly_example :
    Orderly never_fails
      (λ _. Started with_certificates exact default_tls)
      (main never_fails join_paths exact with_certificates new_process)
main-Orderly_example = main-Orderly never_fails join_paths exact with_certificates default_tls

abbrev every_pod : Selector
every_pod = record { matches = λ labels. true; is_empty = false }

abbrev managed : Deployment
managed = record {
  metadata = record (new_meta "ns" "dep" []) { annotations = put empty annotation_managed "true" };
  selector = some (some every_pod);
}

is_managed_managed : is_managed managed.metadata.annotations ≡ true
unfolding is_managed
is_managed_managed = refl

selects_every_pod : deployment_selector managed ≡ some every_pod
unfolding deployment_selector
selects_every_pod = refl

requests-Concerns_example :
    In (key_of managed) (requests (ok (managed ∷ [])) (of_pod (pod_named "pod-0" "node-a" 1)))
requests-Concerns_example =
    requests-Concerns managed (managed ∷ []) (of_pod (pod_named "pod-0" "node-a" 1)) (inl refl)
      is_managed_managed refl
      (its_pod (pod_named "pod-0" "node-a" 1) every_pod selects_every_pod refl refl)
