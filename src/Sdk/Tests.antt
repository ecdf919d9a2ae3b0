-- ===== src/Sdk/Tests.antt =====
-- A machine over a host with two places, and the theorems about it at concrete inputs.
use Prim.Native.String.{String}
use gitvm.Base.{
  ◌≡◌, ◌≢◌, refl, Bool, true, Option, none, some, Result, List, [], ◌∷◌, ok, pos, arith,
  string_comparable, if◌then◌else◌, ◌==◌, ◌^◌,
}
use gitvm.Base.Clock.{Time, add_seconds}
use gitvm.Base.Table.{lookup, insert}
use gitvm.Http.{AgentRequest, AgentAnswer}
use gitvm.Runtime.Fake.{fake, no_init}
use gitvm.Orchestrator.Store.{get, put, count, delete}
use gitvm.Orchestrator.Calls.{
  Orchestrator, new_orchestrator, create, finish_create, new_instance, create_opts, init_with,
  delete_vm,
}
use gitvm.Api.Handlers.{Body, one_vm, VmResponse, create_request, created_answer, to_vm_response}
use gitvm.Api.Handlers as Handlers
use gitvm.Api.Server.{handler, cors, route, presented_key, path_of}
use gitvm.Base.Scan.{trim_prefix}
use gitvm.Sdk.Client.{
  Fields, Json, text, HttpRequest, HttpAnswer, text_at, with_text, with_positive, with_texts,
  request_of, checked, do_request, content_type_of, post_json,
}
use gitvm.Sdk.Client as Client
use gitvm.Sdk.Machine.{
  idle, GitVmConfig, GitVmMachine, MachineError, stopped, new_git_vm_machine, with_server, start,
  stop, pause, is_running, start_body, started, stopped_with,
}
use gitvm.Sdk.Calls.{starts, step, Moves, step-Moves, IsOneRequest, step-IsOneRequest}
use gitvm.Sdk.Body.{wanted}
use gitvm.Sdk.Hosted.{IsJson, ask, told, start-create}
use gitvm.Sdk.Lost.{stop-start, start-pause}

abbrev plain : GitVmConfig
plain = record {
  server_url = "";
  api_key = "s3cret";
  template = "";
  vcpus = pos 2;
  memory_mb = pos 0;
  timeout = pos 60;
  env_vars = none;
  metadata = none;
}

abbrev machine : GitVmMachine
machine = record {
  config = record plain { server_url = "http://localhost:8080" };
  client = record { base_url = "http://localhost:8080"; api_key = "s3cret" };
  vm_id = "";
  state = idle;
}

abbrev small : Orchestrator
small = new_orchestrator (record { max_vms = 2; default_timeout_sec = 300 })

abbrev no_agent : AgentRequest → List String → Option AgentAnswer × List String
no_agent req w = (none, w)

abbrev some_time : Time → String
some_time t = "2025-01-01T00:00:00Z"

-- The text of a VM is its id, and any text is an object with that id.
abbrev id_of : Body String → String
id_of (one_vm vm) = vm.id
id_of _ = ""

abbrev with_id : String → Option Fields
with_id s = some (("id", text s) ∷ [])

abbrev all : String → Bool
all url = true

with_id-IsJson : IsJson String id_of with_id
unfolding text_at lookup
with_id-IsJson vm = (("id", text vm.id) ∷ [], refl, refl)

sdk : Unit {0}
unfolding handler cors route presented_key path_of start stop pause is_running started stopped_with
    start_body with_text with_positive with_texts create finish_create new_instance create_opts
    init_with delete_vm get put count delete lookup insert add_seconds with_server
    new_git_vm_machine Handlers.create_vm Handlers.delete_vm created_answer create_request
    to_vm_response Client.create_vm Client.delete_vm post_json do_request request_of checked
    content_type_of text_at trim_prefix
sdk = tt

new_is_machine : new_git_vm_machine plain ≡ machine
unfolding sdk
new_is_machine = refl

-- The requests that have been sent, newest first; none is answered.
abbrev recording : HttpRequest → List HttpRequest → Option HttpAnswer × List HttpRequest
recording req w = (none, req ∷ w)

step-Moves_example :
    let (e, m', w') = step all recording with_id (λ s. s) (λ s. none) starts machine [] in
    Moves machine starts e m'
step-Moves_example = step-Moves all recording with_id (λ s. s) (λ s. none) starts machine []

step-IsOneRequest_example :
    IsOneRequest all recording with_id
      (λ s. s)
      (λ s. none)
      machine.client
      []
      (step all recording with_id (λ s. s) (λ s. none) starts machine []).2
step-IsOneRequest_example =
    step-IsOneRequest all recording with_id (λ s. s) (λ s. none) starts machine []

start-create_example :
    start all
      (ask fake no_init some_time no_agent id_of all with_id machine.client "1" (2 ^ 64))
      with_id
      machine
      (small, [])
    ≡ told fake no_init some_time no_agent id_of all with_id machine
        (create fake no_init small (wanted machine.config) "1" (2 ^ 64) [])
unfolding sdk
start-create_example =
    start-create fake no_init some_time no_agent id_of all with_id machine "1" (2 ^ 64) small []
      with_id-IsJson refl refl

abbrev served :
    String
    → Time
    → HttpRequest
    → Orchestrator × List String
    → Option HttpAnswer × (Orchestrator × List String)
served = ask fake no_init some_time no_agent id_of all with_id machine.client

abbrev once : Result MachineError (Unit {0}) × GitVmMachine × (Orchestrator × List String)
once = start all (served "1" (2 ^ 64)) with_id machine (small, [])

stop-start_example :
    let (r, m, (o, v)) = stop all (served "" 0) with_id once.1 once.2 in
    (r ≡ ok tt)
    × (m.state ≡ stopped)
    × (m.vm_id ≡ "sb-1")
    × ((j : String) → get j o.store ≡ (if "sb-1" == j then none else get j small.store))
unfolding sdk
stop-start_example =
    stop-start fake no_init some_time no_agent id_of all with_id machine "1" "" (2 ^ 64) 0 small []
      with_id-IsJson refl refl refl (refl, tt) refl

abbrev twice : Result MachineError (Unit {0}) × GitVmMachine × (Orchestrator × List String)
twice = start all (served "2" (2 ^ 64)) with_id (pause once.1).1 once.2

start-pause_example :
    let (r, m, (o, v)) = stop all (served "" 0) with_id twice.1 twice.2 in
    (r ≡ ok tt) × (m.state ≡ stopped) × (m.vm_id ≢ "sb-1") × (get "sb-1" o.store ≢ none)
unfolding sdk
start-pause_example =
    start-pause fake no_init some_time no_agent id_of all with_id machine "1" "2" "" (2 ^ 64)
      (2 ^ 64) 0 small [] with_id-IsJson refl refl refl (refl, tt)
      (λ e. ground (arith, string_comparable.same_iff "sb-2" "sb-1")) refl refl
