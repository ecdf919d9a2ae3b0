-- ===== src/Api/Tests.antt =====
-- Runs of the server of a single host, and the theorems about it at concrete inputs.

use Prim.Native.String.{String}
use gitvm.Base.{◌≡◌, refl, Option, some, List, [], ◌∷◌, arith, inr, concat, string_comparable}
use gitvm.Base.Clock.{Time}
use gitvm.Base.Table.{lookup}
use gitvm.Http.{AgentRequest, AgentAnswer}
use gitvm.Runtime.{running}
use gitvm.Runtime.Fake.{fake, no_init}
use gitvm.Orchestrator.Store.{VmInstance, get}
use gitvm.Orchestrator.Calls.{Config, Orchestrator}
use gitvm.Api.Handlers.{
  exec_stream_vm, reply, preflight, from_agent, panicked, delete_file, answer, has_control,
}
use gitvm.Api.Server.{cors, get_vms, delete_files, post_exec_stream, options, Headers, handler}
use gitvm.Api.Guarantees.{IsGuarded, handler-IsGuarded}
use gitvm.Api.Paths.{path_sent, delete_request, delete_file_cut}
use gitvm.Base.Scan.Cuts.{lacks-Lacks}

abbrev small : Config
small = record { max_vms = 2; default_timeout_sec = 300 }

abbrev vm : VmInstance
vm = record {
  id = "sb-1";
  state = running;
  runtime = "fake";
  template = "base";
  vcpus = 1;
  memory_mb = 512;
  created_at = 0;
  expires_at = 300;
  metadata = [];
  agent_url = "http://10.0.0.2:49983";
  guest_ip = "10.0.0.2";
}

abbrev host : Orchestrator
host = record { config = small; store = ("sb-1", vm) ∷ [] }

abbrev some_time : Time → String
some_time t = "2025-01-01T00:00:00Z"

-- An agent that writes down the URLs that it is asked for, and answers each with status 500.
abbrev failing : AgentRequest → List String → Option AgentAnswer × List String
failing req w = (some (record { status = 500; body = "" }), req.url ∷ w)

abbrev with_key : Headers
with_key = record { x_api_key = ""; authorization = "Bearer s3cret" }

abbrev no_key : Headers
no_key = record { x_api_key = ""; authorization = "" }

server : Unit {0}
unfolding handler cors delete_file exec_stream_vm get lookup
server = tt

-- The URL that a DELETE is sent to.
deleted_url :
    handler fake no_init some_time failing "s3cret" with_key (delete_files "sb-1" "/a&b") host []
    ≡ (reply 500 (from_agent ""), host, "http://10.0.0.2:49983/files?path=/a&b" ∷ [])
unfolding server
deleted_url = refl

-- A newline in the path: the handler panics.
newline_in_path :
    handler fake no_init some_time failing "" no_key (delete_files "sb-1" "/a\nb") host []
    ≡ (panicked, host, [])
unfolding server
newline_in_path = refl

-- The failure of a stream is answered with status 200.
stream_failed :
    handler fake no_init some_time failing "" no_key (post_exec_stream "sb-1" "{}") host []
    ≡ (reply 200 (from_agent ""), host, "http://10.0.0.2:49983/exec/stream" ∷ [])
unfolding server
stream_failed = refl

preflight_open :
    handler fake no_init some_time failing "" no_key (options "/v1/vms") host []
    ≡ (reply 204 preflight, host, [])
unfolding server
preflight_open = refl

handler-IsGuarded_example :
    IsGuarded fake no_init some_time failing "s3cret" with_key get_vms host []
handler-IsGuarded_example =
    handler-IsGuarded fake no_init some_time failing "s3cret" with_key get_vms host []
      (ground (arith, string_comparable.same_iff "s3cret" "")) tt

abbrev as_is : String → Option String
as_is s = some s

delete_file_cut_example :
    let req = delete_request as_is vm (concat "/a" (String.◌∷◌ "&" "b")) in
    (delete_file {E = String} failing "sb-1" (concat "/a" (String.◌∷◌ "&" "b")) host []
      ≡ (answer (failing req []).0, (failing req []).1))
    × (path_sent as_is req.url ≡ some "/a")
unfolding get lookup has_control
delete_file_cut_example =
    delete_file_cut as_is failing "sb-1" vm "/a" "b" "&" host [] refl
      (lacks-Lacks b'#' vm.agent_url refl) (lacks-Lacks b'?' vm.agent_url refl)
      (lacks-Lacks b'#' "/a" refl) (lacks-Lacks b'&' "/a" refl) (lacks-Lacks b';' "/a" refl)
      (lacks-Lacks b'%' "b" refl)
      (lacks-Lacks b' ' (delete_request as_is vm (concat "/a" (String.◌∷◌ "&" "b"))).url refl) refl
      refl refl (inr refl)
