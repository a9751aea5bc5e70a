-- ===== src/PodClient.antt =====
-- internal/controller/podclient/podclient.go: the controller's view of a pod's lease API. What the
-- network answers (a transport error, or a status and a body) is an argument of each call.
pub mod Fake
use Prim.Native.String.{◌++◌}
use gpu_lease.Decimal.{format_nat}
use gpu_lease.Names.{second}
use gpu_lease.Common.{
  get_or, ◌*◌, ℕ, String, Option, none, some, ℤ, ◌==◌, ◌||◌, ltb, leb, if◌then◌else◌,
}

pub record ActivateRequest : Type 0 where
  pub lease_name : String
  pub node : String
  pub gpu_id : ℤ
  pub gpu_model : String

pub record StateResponse : Type 0 where
  pub state : String
  pub lease_name : String
  pub node : String
  pub gpu_id : ℤ

-- ErrNodeMismatch, and any other error, for which the callers only test that it is not nil.
pub data PodError : Type 0 where
  node_mismatch failed : PodError

abbrev pub default_port : ℕ
default_port = 8000

abbrev pub status_ok : ℕ
status_ok = 200

abbrev pub status_accepted : ℕ
status_accepted = 202

abbrev pub status_no_content : ℕ
status_no_content = 204

abbrev pub status_bad_request : ℕ
status_bad_request = 400

abbrev pub status_conflict : ℕ
status_conflict = 409

abbrev pub status_service_unavailable : ℕ
status_service_unavailable = 503

-- What `c.client().Do(httpReq)` gives: an error, or the status of the response.
-- HTTPClient.Activate, from the response on; `none` is a nil error.
unfoldable pub http_activate : Option ℕ → Option PodError
http_activate none = some failed
http_activate (some status) =
    if status == status_accepted || status == status_ok
    then none
    else if status == status_conflict
    then some node_mismatch
    else some failed

-- HTTPClient.Release
unfoldable pub http_release : Option ℕ → Option PodError
http_release none = some failed
http_release (some status) = if ltb status 200 || leb 300 status then some failed else none

-- HTTPClient.State: the status with the decoded body, `none` where it does not decode.
unfoldable pub http_state : Option (ℕ × Option StateResponse) → Option StateResponse
http_state none = none
http_state (some (status, body)) = if status == status_ok then body else none

-- HTTPClient.port
unfoldable pub http_port : ℕ → ℕ
http_port port = if port == 0 then default_port else port

-- HTTPClient.baseURL, for a port that is not negative
unfoldable pub base_url : (port : ℕ) → (pod_ip : String) → String
unfolding http_port
base_url port pod_ip = "http://" ++ (pod_ip ++ (":" ++ format_nat (http_port port)))

-- HTTPClient; `http_client` is its http.Client by the timeout, and `none` is nil.
pub record HttpClient : Type 0 where
  pub http_client : Option ℕ
  pub port : ℕ

abbrev pub default_timeout : ℕ
default_timeout = 5 * second

-- NewHTTPClient
abbrev pub new_http_client : HttpClient
new_http_client = record { http_client = some default_timeout; port = default_port }

-- HTTPClient.client, by its timeout
unfoldable pub client_timeout : HttpClient → ℕ
client_timeout c = get_or c.http_client default_timeout
