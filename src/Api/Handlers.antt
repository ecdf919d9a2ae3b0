-- ===== src/Api/Handlers.antt =====
-- api/handlers.go and api/types.go: the handlers over the orchestrator of the host. `agent` makes a
-- request to the agent of a sandbox: its answer, or `none` where it is unreachable, is a parameter and
-- may change the world, as is `rfc3339`, the text of a time.
use Prim.Native.Char.{code}
use Prim.Native.String.{String}
use gitvm.Base.{
  ℕ, Bool, false, Option, none, some, List, map, Result, ok, err, ℤ, concat, ltb, nat_beq, ◌||◌,
  if◌then◌else◌,
}
use gitvm.Base.Clock.{Time}
use gitvm.Base.Table.{Table}
use gitvm.Http.{Response, respond, AgentRequest, AgentAnswer}
use gitvm.Runtime.{State, Runtime}
use gitvm.Orchestrator.Store.{VmInstance, get, list, count}
use gitvm.Orchestrator.Calls.{CreateRequest, Orchestrator, OrchError}
use gitvm.Orchestrator.Calls as Calls

pub record CreateVmRequest : Type 0 where
  pub template : String
  pub vcpus : ℤ
  pub memory_mb : ℤ
  pub timeout : ℤ
  pub metadata : Table String String
  pub env_vars : Table String String

pub record VmResponse : Type 0 where
  pub id : String
  pub state : State
  pub template : String
  pub vcpus : ℕ
  pub memory_mb : ℕ
  pub created_at : String
  pub expires_at : String
  pub metadata : Table String String
  pub agent_url : String
  pub guest_ip : String

-- The bodies that the server writes. An error body keeps what its text is built from.
pub data Body (E : Type 0) : Type 0 where
  invalid_json vm_not_found agent_unreachable deleted unauthorized preflight no_route : Body E
  orch_error : OrchError E → Body E
  one_vm : VmResponse → Body E
  many_vms : List VmResponse → Body E
  healthy : ℕ → Body E
  from_agent : String → Body E

-- What becomes of a request: an answer, or a handler that panics, whose connection is closed.
pub data Outcome (E : Type 0) : Type 0 where
  answered : Response (Body E) → Outcome E
  panicked : Outcome E

abbrev pub reply : {E : Type 0} → ℕ → Body E → Outcome E
reply status body = answered (respond status body)

unfoldable pub to_vm_response : (Time → String) → VmInstance → VmResponse
to_vm_response rfc3339 vm = record {
  id = vm.id;
  state = vm.state;
  template = vm.template;
  vcpus = vm.vcpus;
  memory_mb = vm.memory_mb;
  created_at = rfc3339 vm.created_at;
  expires_at = rfc3339 vm.expires_at;
  metadata = vm.metadata;
  agent_url = vm.agent_url;
  guest_ip = vm.guest_ip;
}

unfoldable pub create_request : CreateVmRequest → CreateRequest
create_request req = record {
  template = req.template;
  vcpus = req.vcpus;
  memory_mb = req.memory_mb;
  timeout = req.timeout;
  metadata = req.metadata;
  env_vars = req.env_vars;
}

-- A URL with a control character is refused by `http.NewRequest` and `http.Post`. They refuse one
-- with a bad host, which the URL of an agent is not, or with a bad escape behind a `#`, too; the
-- latter is not modelled.
unfoldable pub has_control : String → Bool
has_control String.[] = false
has_control (String.◌∷◌ c s) = ltb (code c) 32 || nat_beq (code c) 127 || has_control s

unfoldable pub answer : {E : Type 0} → Option AgentAnswer → Outcome E
answer none = reply 502 agent_unreachable
answer (some a) = reply a.status (from_agent a.body)

-- `ExecStreamVM` writes no status, so that it is 200 whatever the agent answers.
unfoldable pub stream_answer : {E : Type 0} → Option AgentAnswer → Outcome E
stream_answer none = reply 502 agent_unreachable
stream_answer (some a) = reply 200 (from_agent a.body)

module _ {E W : Type 0} (rt : Runtime E W) (init_agent : String → Table String String → W → W)
    (rfc3339 : Time → String) where
  unfoldable pub created_answer :
      Result (OrchError E) VmInstance × Orchestrator × W → Outcome E × Orchestrator × W
  unfolding to_vm_response
  created_answer (err e, o, w) = (reply 500 (orch_error e), o, w)
  created_answer (ok vm, o, w) = (reply 201 (one_vm (to_vm_response rfc3339 vm)), o, w)

  unfoldable pub create_vm :
      Option CreateVmRequest → String → Time → Orchestrator → W → Outcome E × Orchestrator × W
  unfolding created_answer create_request
  create_vm none uuid now o w = (reply 400 invalid_json, o, w)
  create_vm (some req) uuid now o w =
      created_answer (Calls.create rt init_agent o (create_request req) uuid now w)

  unfoldable pub list_vms : Orchestrator → Outcome E
  unfolding to_vm_response
  list_vms o = reply 200 (many_vms (map (to_vm_response rfc3339) (list o.store)))

  unfoldable pub get_vm : String → Orchestrator → Outcome E
  unfolding to_vm_response
  get_vm id o = elim (get id o.store) [
    | none ↦ reply 404 vm_not_found
    | some vm ↦ reply 200 (one_vm (to_vm_response rfc3339 vm))
  ]

  unfoldable pub delete_vm : String → Orchestrator → W → Outcome E × Orchestrator × W
  delete_vm id o w =
      let (r, o', w') = Calls.delete_vm rt init_agent o id w in
      (elim r [ err e ↦ reply 404 (orch_error e) | ok _ ↦ reply 200 deleted ], o', w')

unfoldable pub health : {E : Type 0} → Orchestrator → Outcome E
health o = reply 200 (healthy (count o.store))

-- `NewRequest(m, u, body)`, the error dropped, and `Do`: without a request `Do` panics.
unfoldable pub do_request :
    {E W : Type 0} → (AgentRequest → W → Option AgentAnswer × W) → AgentRequest → W → Outcome E × W
unfolding answer has_control
do_request agent req w =
    let (a, w') = agent req w in if has_control req.url then (panicked, w) else (answer a, w')

-- `http.Post(u, …)`, which fails without a request where the URL is refused
unfoldable pub post :
    {E W : Type 0}
    → (AgentRequest → W → Option AgentAnswer × W)
    → (Option AgentAnswer → Outcome E)
    → AgentRequest
    → W
    → Outcome E × W
unfolding has_control
post agent show req w =
    let (a, w') = agent req w in if has_control req.url then (show none, w) else (show a, w')

module _ {E W : Type 0} (agent : AgentRequest → W → Option AgentAnswer × W) where
  -- The lookup with which every handler that asks the agent begins.
  unfoldable pub with_vm :
      String → (VmInstance → W → Outcome E × W) → Orchestrator → W → Outcome E × W
  with_vm id k o w = elim (get id o.store) [ none ↦ (reply 404 vm_not_found, w) | some vm ↦ k vm w ]

  unfoldable pub exec_vm : String → String → Orchestrator → W → Outcome E × W
  unfolding with_vm post answer
  exec_vm id body = with_vm id λ vm.
      post agent answer (record { method = "POST"; url = concat vm.agent_url "/exec"; body = body })

  unfoldable pub exec_stream_vm : String → String → Orchestrator → W → Outcome E × W
  unfolding with_vm post stream_answer
  exec_stream_vm id body = with_vm id λ vm.
      post agent stream_answer
        (record { method = "POST"; url = concat vm.agent_url "/exec/stream"; body = body })

  -- `ReadFile` and `ListFiles` are this function at their path.
  unfoldable pub proxy_get_to_agent : String → String → String → Orchestrator → W → Outcome E × W
  unfolding with_vm post answer
  proxy_get_to_agent path id query = with_vm id λ vm. post agent answer (record {
    method = "GET";
    url = concat vm.agent_url (concat path (concat "?" query));
    body = "";
  })

  -- `WriteFile`
  unfoldable pub proxy_body_to_agent :
      String → String → String → String → String → Orchestrator → W → Outcome E × W
  unfolding with_vm do_request
  proxy_body_to_agent method path id query body = with_vm id λ vm. do_request agent (record {
    method = method;
    url = concat vm.agent_url (concat path (concat "?" query));
    body = body;
  })

  -- The value of `path` goes into the URL as it is.
  unfoldable pub delete_file : String → String → Orchestrator → W → Outcome E × W
  unfolding with_vm do_request
  delete_file id path = with_vm id λ vm. do_request agent (record {
    method = "DELETE";
    url = concat vm.agent_url (concat "/files?path=" path);
    body = "";
  })

  unfoldable pub mkdir : String → String → Orchestrator → W → Outcome E × W
  unfolding with_vm post answer
  mkdir id path = with_vm id λ vm. post agent answer (record {
    method = "POST";
    url = concat vm.agent_url (concat "/files/mkdir?path=" path);
    body = "";
  })
