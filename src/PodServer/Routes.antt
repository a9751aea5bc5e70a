-- ===== src/PodServer/Routes.antt =====
-- The routes of NewServer of internal/workload/server.go. Of net/http's ServeMux: a pattern is a method
-- and a path, GET takes HEAD as well, a path with other methods only is a 405, and any other path a
-- 404. A request stands with its decoded body and with whether its client goes away.
use gpu_lease.Common.{
  ℕ, String, Bool, true, false, Option, some, List, [], ◌∷◌, str_eq, ◌&&◌, ◌||◌, if◌then◌else◌,
}
use gpu_lease.PodClient.{ActivateRequest, status_ok}
use gpu_lease.PodServer.{
  Server, handle_activate, handle_release, handle_state, handle_infer, handle_healthz,
}

pub data Handler : Type 0 where
  on_activate on_release on_state on_infer on_healthz on_metrics : Handler

pub record Route : Type 0 where
  pub method : String
  pub path : String
  pub handler : Handler

abbrev pub routes : List Route
routes =
    record { method = "POST"; path = "/lease"; handler = on_activate }
    ∷ record { method = "DELETE"; path = "/lease"; handler = on_release }
    ∷ record { method = "GET"; path = "/state"; handler = on_state }
    ∷ record { method = "POST"; path = "/infer"; handler = on_infer }
    ∷ record { method = "GET"; path = "/healthz"; handler = on_healthz }
    ∷ record { method = "GET"; path = "/readyz"; handler = on_healthz }
    ∷ record { method = "GET"; path = "/metrics"; handler = on_metrics }
    ∷ []

pub record HttpRequest : Type 0 where
  pub method : String
  pub path : String
  pub body : Option ActivateRequest
  pub cancelled : Bool

abbrev pub status_not_found : ℕ
status_not_found = 404

abbrev pub status_method_not_allowed : ℕ
status_method_not_allowed = 405

unfoldable pub allows : String → String → Bool
allows pattern method = str_eq pattern method || (str_eq pattern "GET" && str_eq method "HEAD")

-- The first route that matches; `known` is that the path was seen with another method.
unfoldable pub serve_route : Server → HttpRequest → (now : ℕ) → Handler → Server × Option ℕ
unfolding handle_activate handle_release handle_state handle_infer handle_healthz
serve_route s req now on_activate =
    let (s', status) = handle_activate s req.body now in (s', some status)
serve_route s req now on_release = let (s', status) = handle_release s in (s', some status)
serve_route s req now on_state = (s, some (handle_state s).0)
serve_route s req now on_infer = handle_infer s req.cancelled
serve_route s req now on_healthz = (s, some (handle_healthz s))
serve_route s req now on_metrics = (s, some status_ok)

unfoldable pub serve_among :
    Server → HttpRequest → (now : ℕ) → (known : Bool) → List Route → Server × Option ℕ
unfolding serve_route allows
serve_among s req now known [] =
    (s, some (if known then status_method_not_allowed else status_not_found))
serve_among s req now known (r ∷ rs) =
    let other = serve_among s req now known rs in
    let seen = serve_among s req now true rs in
    if str_eq r.path req.path
    then (if allows r.method req.method then serve_route s req now r.handler else seen)
    else other

-- ServeHTTP of the mux: the server after it, and the status, `none` where there is no response.
unfoldable pub serve_request : Server → HttpRequest → (now : ℕ) → Server × Option ℕ
unfolding serve_among
serve_request s req now = serve_among s req now false routes
