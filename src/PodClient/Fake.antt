-- ===== src/PodClient/Fake.antt =====
-- FakeClient of internal/controller/podclient/podclient.go: pods in memory, with errors that a test
-- injects. Each method is one step under the mutex. An entry of an error map may hold a nil error.
pub mod History
use gpu_lease.Common.{
  String, Option, none, some, List, [], ◌∷◌, ◌++◌, Map, empty, put, get_or, str_eq, negsuc, pos,
  if◌then◌else◌,
}
use gpu_lease.PodClient.{ActivateRequest, StateResponse, PodError}

-- StateWarm and StateHot
abbrev pub reported_warm : String
reported_warm = "warm"

abbrev pub reported_hot : String
reported_hot = "hot"

-- ActivateRequestCall
pub record ActivateRequestCall : Type 0 where
  pub pod_ip : String
  pub request : ActivateRequest

pub record FakeClient : Type 0 where
  pub pods : Map String
  pub activate_err : Map (Option PodError)
  pub release_err : Map (Option PodError)
  pub state_err : Map (Option PodError)
  pub activate_calls : List ActivateRequestCall
  pub release_calls : List String

-- NewFakeClient
unfoldable pub new_fake_client : FakeClient
new_fake_client = record {
  pods = empty;
  activate_err = empty;
  release_err = empty;
  state_err = empty;
  activate_calls = [];
  release_calls = [];
}

-- `if err, ok := errs[podIP]; ok && err != nil`
unfoldable pub injected : Map (Option PodError) → String → Option PodError
injected errs pod_ip = get_or (errs pod_ip) none

-- SetState
unfoldable pub set_state : FakeClient → (pod_ip state : String) → FakeClient
set_state f pod_ip state = record f { pods = put f.pods pod_ip state }

-- The pod that a call reaches, unless it gives the injected error.
unfoldable pub unless_injected : Option PodError → FakeClient → (pod_ip state : String) → FakeClient
unfolding set_state
unless_injected none f pod_ip state = set_state f pod_ip state
unless_injected (some e) f pod_ip state = f

-- FakeClient.Activate, with its error
unfoldable pub fake_activate :
    FakeClient → (pod_ip : String) → ActivateRequest → Option PodError × FakeClient
unfolding unless_injected injected
fake_activate f pod_ip req = (
  injected f.activate_err pod_ip,
  unless_injected (injected f.activate_err pod_ip)
      (record f {
        activate_calls = f.activate_calls ++ record { pod_ip = pod_ip; request = req } ∷ [];
      })
      pod_ip reported_hot,
)

-- FakeClient.Release, with its error
unfoldable pub fake_release : FakeClient → (pod_ip : String) → Option PodError × FakeClient
unfolding unless_injected injected
fake_release f pod_ip = (
  injected f.release_err pod_ip,
  unless_injected (injected f.release_err pod_ip)
      (record f { release_calls = f.release_calls ++ pod_ip ∷ [] }) pod_ip reported_warm,
)

-- The state that is reported of a pod; "" counts as warm.
unfoldable pub reported : FakeClient → (pod_ip : String) → String
reported f pod_ip =
    if str_eq (get_or (f.pods pod_ip) "") "" then reported_warm else get_or (f.pods pod_ip) ""

-- FakeClient.State, by the injected error; `none` stands for an error.
unfoldable pub state_unless :
    Option PodError → FakeClient → (pod_ip : String) → Option StateResponse
unfolding reported
state_unless (some e) f pod_ip = none
state_unless none f pod_ip =
    some (record { state = reported f pod_ip; lease_name = ""; node = ""; gpu_id = pos 0 })

-- FakeClient.State
unfoldable pub fake_state : FakeClient → (pod_ip : String) → Option StateResponse
unfolding state_unless injected
fake_state f pod_ip = state_unless (injected f.state_err pod_ip) f pod_ip
