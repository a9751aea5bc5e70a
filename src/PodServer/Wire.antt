-- ===== src/PodServer/Wire.antt =====
-- Both ends of the lease API: what podclient.go reads from the answers of server.go.
use gpu_lease.Common.{
  inl, inr, Option-cases, ℕ, ◌≡◌, ◌⊎◌, refl, String, Option, none, some, eq_iff, arith, sym, ◌∙◌,
}
use gpu_lease.PodClient.{
  ActivateRequest, PodError, StateResponse, http_activate, http_release, http_state,
}
use gpu_lease.PodClient
use gpu_lease.Machine.{
  activating, hot, ActivateError, node_mismatch, lease_conflict, activate, activate_in,
  begin_warmup, Machine,
}
use gpu_lease.Machine.System.{activates, outcome, step}
use gpu_lease.PodServer.{Server, handle_activate, activate_status, serve}

-- The client's error for the machine's error: both refusals are a 409.
unfoldable pub seen_by_client : Option ActivateError → Option PodError
seen_by_client none = none
seen_by_client (some node_mismatch) = some PodClient.node_mismatch
seen_by_client (some lease_conflict) = some PodClient.node_mismatch

http_activate-activate_status :
    (e : Option ActivateError) → http_activate (some (activate_status e)) ≡ seen_by_client e
unfolding http_activate activate_status seen_by_client
http_activate-activate_status none = refl
http_activate-activate_status (some node_mismatch) = refl
http_activate-activate_status (some lease_conflict) = refl

-- A decoded POST /lease: the client sees no error exactly when the machine gives none, and takes
-- each of the machine's two refusals, a wrong node and a conflicting lease, for a node mismatch.
pub http_activate-handle_activate :
    (s : Server) (req : ActivateRequest) (now : ℕ)
    → http_activate (some (handle_activate s (some req) now).1)
      ≡ seen_by_client (outcome s.cfg.node_name s.pod (activates req now)).error
unfolding handle_activate
http_activate-handle_activate s req now = http_activate-activate_status _

seen_by_client-eq-none : (e : Option ActivateError) → seen_by_client e ≡ none → e ≡ none
unfolding seen_by_client
seen_by_client-eq-none none h = refl
seen_by_client-eq-none (some node_mismatch) h = cc
seen_by_client-eq-none (some lease_conflict) h = cc

-- What a machine that accepted a request is committed to.
abbrev pub Committed : Machine → ActivateRequest → Type 0
Committed m req = (m.lease_name ≡ req.lease_name) × ((m.state ≡ activating) ⊎ (m.state ≡ hot))

activate-Committed :
    (m : Machine) (req : ActivateRequest) (own_node : String) (now : ℕ)
    → (activate m req own_node now).error ≡ none
    → (req.node ≡ own_node) × Committed (activate m req own_node now).machine req
unfolding activate activate_in begin_warmup
activate-Committed m req own_node now h =
    ground (arith, eq_iff req.node own_node, eq_iff req.lease_name m.lease_name)

activate_refused :
    (m : Machine) (req : ActivateRequest) (own_node : String) (now : ℕ) (e : ActivateError)
    → (activate m req own_node now).error ≡ some e
    → (activate m req own_node now).machine ≡ m
unfolding activate activate_in begin_warmup
activate_refused m req own_node now e h = ground arith

seen_by_client-eq-some :
    (e : Option ActivateError) (x : PodError)
    → seen_by_client e ≡ some x
    → (y : ActivateError) × (e ≡ some y)
unfolding seen_by_client
seen_by_client-eq-some none x h = ground arith
seen_by_client-eq-some (some y) x h = (y, refl)

accepted-Committed :
    (s : Server) (req : ActivateRequest) (now : ℕ)
    → http_activate (some (handle_activate s (some req) now).1) ≡ none
    → (req.node ≡ s.cfg.node_name) × Committed (handle_activate s (some req) now).0.pod.machine req
unfolding handle_activate serve step outcome
accepted-Committed s req now h =
    activate-Committed s.pod.machine req s.cfg.node_name now
      (seen_by_client-eq-none _ (sym (http_activate-handle_activate s req now) ∙ h))

undecoded :
    (s : Server) (now : ℕ)
    → http_activate (some (handle_activate s none now).1) ≡ some PodError.failed
unfolding http_activate handle_activate
undecoded s now = refl

http_activate_refused :
    (s : Server) (body : Option ActivateRequest) (now : ℕ) (x : PodError)
    → http_activate (some (handle_activate s body now).1) ≡ some x
    → (handle_activate s body now).0.pod.machine ≡ s.pod.machine
unfolding handle_activate serve step outcome
http_activate_refused s none now x h = refl
http_activate_refused s (some req) now x h =
    let (y, e) = seen_by_client-eq-some _ x (sym (http_activate-handle_activate s req now) ∙ h) in
    activate_refused s.pod.machine req s.cfg.node_name now y e

-- A POST /lease that the pod has answered, where the answer has reached the client, whatever the body:
-- either the client sees no error, and then the body decodes to a request for the pod's own node and
-- the pod is now activating or hot for its lease; or it sees an error, and then the pod's machine is
-- as it was.
pub http_activate-Committed :
    (s : Server) (body : Option ActivateRequest) (now : ℕ)
    → ((http_activate (some (handle_activate s body now).1) ≡ none)
        × ((req : ActivateRequest) × (body ≡ some req)
            × (req.node ≡ s.cfg.node_name)
            × Committed (handle_activate s body now).0.pod.machine req))
      ⊎ ((x : PodError) × (http_activate (some (handle_activate s body now).1) ≡ some x)
          × ((handle_activate s body now).0.pod.machine ≡ s.pod.machine))
http_activate-Committed s none now =
    inr (_, undecoded s now, http_activate_refused s none now _ (undecoded s now))
http_activate-Committed s (some req) now =
    elim (Option-cases (http_activate (some (handle_activate s (some req) now).1))) [
      | inl e ↦ let p = accepted-Committed s req now e in inl (e, (req, refl, p.0, p.1))
      | inr p ↦ inr (p.0, p.1, http_activate_refused s (some req) now p.0 p.1)
    ]
