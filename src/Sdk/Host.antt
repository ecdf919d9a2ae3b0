-- ===== src/Sdk/Host.antt =====
-- sdk/ against api/server.go: the server of a single host as a client reaches it, with the routes
-- that starting and stopping a machine need. `encode` is the JSON text of a body.
use Prim.Native.String.{String}
use text.Mathlib.Text.{starts_with}
use gitvm.Base.{Bool, ◌&&◌, Option, none, some, [], if◌then◌else◌, ◌==◌, string_comparable}
use gitvm.Base.Clock.{Time}
use gitvm.Base.Scan.{before_first, trim_prefix}
use gitvm.Base.Table.{Table, lookup}
use gitvm.Http.{AgentRequest, AgentAnswer}
use gitvm.Runtime.{Runtime}
use gitvm.Orchestrator.Calls.{Orchestrator}
use gitvm.Api.Handlers.{CreateVmRequest, Body, Outcome, answered, panicked}
use gitvm.Api.Server.{Request, post_vms, delete_one, unrouted, handler}
use gitvm.Sdk.Client.{
  Fields, Payload, json, HttpRequest, HttpAnswer, texts, text_at, text_or, number_at,
}

abbrev pub texts_at : String → Fields → Table String String
texts_at name fields = elim (lookup name fields) [ some (texts t) ↦ t | _ ↦ [] ]

-- `CreateVmRequest` decoded from an object
abbrev pub requested : Fields → CreateVmRequest
requested fields = record {
  template = text_or "" (text_at "template" fields);
  vcpus = number_at "vcpus" fields;
  memory_mb = number_at "memoryMB" fields;
  timeout = number_at "timeout" fields;
  metadata = texts_at "metadata" fields;
  env_vars = texts_at "envVars" fields;
}

abbrev body_of : Payload → Option CreateVmRequest
body_of (json fields) = some (requested fields)
body_of _ = none

abbrev is_segment : String → Bool
is_segment s = before_first b'/' s == s

-- The route of a request to the server at `base`. The ids have no character that is escaped.
abbrev pub routed : String → String → Time → HttpRequest → Request
routed base uuid now req =
    let path = trim_prefix req.url base in
    let id = trim_prefix path "/v1/vms/" in
    if req.method == "POST" && path == "/v1/vms"
    then post_vms (body_of req.payload) uuid now
    else if req.method == "DELETE" && starts_with path "/v1/vms/" && is_segment id
    then delete_one id
    else unrouted 404 path

module _ {E V : Type 0} (rt : Runtime E V) (init_agent : String → Table String String → V → V)
    (rfc3339 : Time → String) (agent : AgentRequest → V → Option AgentAnswer × V)
    (encode : Body E → String) (key base : String) where
  abbrev pub shown : Outcome E × Orchestrator × V → Option HttpAnswer × (Orchestrator × V)
  shown (answered r, o, v) = (some (record { status = r.status; body = encode r.body }), (o, v))
  shown (panicked, o, v) = (none, (o, v))

  -- The server; a VM that the request makes gets its id from `uuid`.
  abbrev pub host :
      String → Time → HttpRequest → Orchestrator × V → Option HttpAnswer × (Orchestrator × V)
  host uuid now req (o, v) = shown (
      handler rt init_agent rfc3339 agent key
        (record { x_api_key = req.x_api_key; authorization = "" }) (routed base uuid now req) o v)
