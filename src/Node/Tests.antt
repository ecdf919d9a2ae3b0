-- ===== src/Node/Tests.antt =====
-- A node with one sandbox over the backend of the tests, and the theorems about it at concrete inputs.
use gitvm.Base.{
  ok, none, arith, decimal, ◌^◌, ◌≡◌, refl, String, Option, some, List, [], ◌∷◌, pos,
  string_comparable,
}
use gitvm.Base.Clock.{add_seconds}
use gitvm.Base.Table.{lookup, insert}
use gitvm.Http.{AgentRequest, AgentAnswer}
use gitvm.Runtime.Fake.{fake, no_init}
use gitvm.Orchestrator.Store.{get, put, count}
use gitvm.Orchestrator.Calls.{
  Config, CreateRequest, Orchestrator, new_orchestrator, sandbox_id, new_instance, create_opts,
  init_with, finish_create,
}
use gitvm.Orchestrator.Calls as Calls
use gitvm.Orchestrator.Valid.{IsValid, new_orchestrator-IsValid}
use gitvm.Orchestrator.Valid.Calls.{create-IsValid}
use gitvm.Node.Handlers.{
  NodeCreateRequest, create_request, created_response, handle_create, write_state, handle_pause,
  handle_resume, proxy_to_agent, answer,
}
use gitvm.Node.Routes.{post_pause, serve}
use gitvm.Node.Guarantees.{IsProxied, agent_request, proxy_to_agent-IsProxied, handle_pause_unasked}
use gitvm.Node.Valid.{serve-IsValid}
use gitvm.ControlPlane.Db.{Db, get_node}
use gitvm.Node.Control.{
  NodeConfig, new_server, unreachable, ControlRequest, ControlAnswer, register, send_heartbeat,
  control_request, registered, register_body,
}
use gitvm.ControlPlane.Db.{stored_node}
use gitvm.ControlPlane.Handlers.NodeApi.{registered_node}
use gitvm.Node.Joining.{plane, reported, send_heartbeat-register, register_failed-silent}

abbrev small : Config
small = record { max_vms = 1; default_timeout_sec = 300 }

abbrev plain : NodeCreateRequest
plain = record {
  sandbox_id = "sb-of-the-control-plane";
  template = "";
  vcpus = pos 1;
  memory_mb = pos 512;
  timeout = pos 60;
  env_vars = [];
}

-- The agent answers each request with its URL.
abbrev echo : AgentRequest → List String → Option AgentAnswer × List String
echo req w = (some (record { status = 200; body = req.url }), req.url ∷ w)

node : Unit {0}
unfolding handle_create created_response create_request handle_pause write_state proxy_to_agent
    answer Calls.create finish_create new_instance create_opts init_with get put count lookup insert
    add_seconds
node = tt

abbrev one_vm : Orchestrator
one_vm =
    (Calls.create fake no_init (new_orchestrator small) (create_request plain) "1" (2 ^ 64) []).1

one_vm-IsValid : IsValid small one_vm
one_vm-IsValid =
    create-IsValid fake no_init small (new_orchestrator small) (create_request plain) "1" (2 ^ 64)
      [] (new_orchestrator-IsValid small)

query_is_passed_on :
    (proxy_to_agent {E = String} echo "GET" "/files" "sb-1" "path=/etc" "" one_vm []).2
    ≡ "http://10.0.0.2:49983/files?path=/etc" ∷ []
unfolding node
query_is_passed_on = refl

serve-IsValid_example :
    IsValid small (serve fake no_init echo (post_pause "sb-1") one_vm ("create sb-1" ∷ [])).1
serve-IsValid_example =
    serve-IsValid fake no_init echo small (post_pause "sb-1") one_vm ("create sb-1" ∷ [])
      one_vm-IsValid

proxy_to_agent-IsProxied_example :
    IsProxied {E = String} echo
      (agent_request "POST" "/exec" "" "ls")
      "sb-1"
      (get "sb-1" one_vm.store)
      one_vm
      []
      (proxy_to_agent echo "POST" "/exec" "sb-1" "" "ls" one_vm [])
proxy_to_agent-IsProxied_example =
    proxy_to_agent-IsProxied String echo "POST" "/exec" "sb-1" "" "ls" one_vm []

handle_pause_unasked_example :
    ((handle_pause fake no_init "sb-1" one_vm []).2 ≡ [])
    × ((fake.pause "sb-1" []).0 ≡ ok tt
        → (handle_pause fake no_init "sb-1" one_vm []).1
          ≡ (Calls.pause fake no_init one_vm "sb-1" []).1)
    × ((handle_resume fake no_init "sb-1" one_vm []).2 ≡ [])
    × ((fake.resume "sb-1" []).0 ≡ ok tt
        → (handle_resume fake no_init "sb-1" one_vm []).1
          ≡ (Calls.resume fake no_init one_vm "sb-1" []).1)
handle_pause_unasked_example =
    handle_pause_unasked fake no_init small "sb-1" one_vm [] one_vm-IsValid

abbrev no_rows : Db
no_rows = record { users = []; projects = []; nodes = []; sandboxes = []; cloud_pools = [] }

abbrev metal : NodeConfig
metal = record {
  port = 9090;
  control_plane_url = "https://cp";
  node_key = "k";
  name = "metal-1";
  max_sandboxes = 50;
}

abbrev deaf : ControlRequest → List String → Option ControlAnswer × List String
deaf req w = (none, req.url ∷ w)

control : Unit {0}
unfolding register send_heartbeat control_request registered stored_node registered_node
    register_body decimal
control = tt

stored_under_loopback :
    (reported metal "node-1" 1000000000 2000000000 1).address ≡ "http://0.0.0.0:9090"
unfolding control
stored_under_loopback = refl

send_heartbeat-register_example :
    let (r, s, d₁) = register (plane "k" "node-1" 1000000000) (new_server metal) no_rows in
    let d₂ = send_heartbeat (plane "k" "" 2000000000) s one_vm d₁ in
    (r ≡ ok tt)
    × (s.node_id ≡ "node-1")
    × (get_node "node-1" d₂
        ≡ some (reported metal "node-1" 1000000000 2000000000 (count one_vm.store)))
unfolding get_node lookup
send_heartbeat-register_example =
    send_heartbeat-register metal one_vm "node-1" "" 1000000000 2000000000 no_rows
      (ground (arith, string_comparable.same_iff "k" ""))
      (ground (arith, string_comparable.same_iff "node-1" "")) refl

register_failed-silent_example :
    send_heartbeat deaf (register deaf (new_server metal) []).1 one_vm [] ≡ []
unfolding control
register_failed-silent_example =
    register_failed-silent deaf (new_server metal) [] unreachable refl refl one_vm []
