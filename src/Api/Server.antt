-- ===== src/Api/Server.antt =====
-- api/server.go and api/middleware.go: the routes, the check of the API key and the CORS answer. The
-- logging around them changes no answer.

use Prim.Native.String.{String, len, slice}
use text.Mathlib.Text.{starts_with}
use gitvm.Base.{ℕ, ◌&&◌, ◌||◌, Option, concat, ltb, if◌then◌else◌, ◌==◌, string_comparable}
use gitvm.Base.Clock.{Time}
use gitvm.Base.Table.{Table}
use gitvm.Http.{AgentRequest, AgentAnswer}
use gitvm.Runtime.{Runtime}
use gitvm.Orchestrator.Calls.{Orchestrator}
use gitvm.Api.Handlers.{
  CreateVmRequest, Outcome, reply, unauthorized, preflight, no_route, create_vm, list_vms, get_vm,
  delete_vm, health, exec_vm, exec_stream_vm, proxy_get_to_agent, proxy_body_to_agent, delete_file,
  mkdir,
}

-- A request by its route, with its path values, query and body. The random part of an id and the
-- time that a handler reads come with it. `options` asks with that method for a path, and `unrouted`
-- is any other request, which no route takes: ServeMux answers it by itself, with 404, with 405 where
-- the path has a route for another method, or with a redirect, and that status comes with it.
pub data Request : Type 0 where
  post_vms : Option CreateVmRequest → String → Time → Request
  get_vms get_health : Request
  get_one delete_one : String → Request
  -- the id and the body
  post_exec post_exec_stream : String → String → Request
  -- the id and the query
  get_files get_files_list : String → String → Request
  -- the id, the query and the body
  put_files : String → String → String → Request
  -- the id and the value of `path` in the query
  delete_files post_mkdir : String → String → Request
  options : String → Request
  unrouted : ℕ → String → Request

abbrev vm_path : String → String → String
vm_path id rest = concat "/v1/vms" (concat "/" (concat id rest))

-- `r.URL.Path`
unfoldable pub path_of : Request → String
path_of (post_vms req uuid now) = "/v1/vms"
path_of get_vms = "/v1/vms"
path_of get_health = "/health"
path_of (get_one id) = vm_path id ""
path_of (delete_one id) = vm_path id ""
path_of (post_exec id body) = vm_path id "/exec"
path_of (post_exec_stream id body) = vm_path id "/exec/stream"
path_of (get_files id query) = vm_path id "/files"
path_of (get_files_list id query) = vm_path id "/files/list"
path_of (put_files id query body) = vm_path id "/files"
path_of (delete_files id path) = vm_path id "/files"
path_of (post_mkdir id path) = vm_path id "/files/mkdir"
path_of (options path) = path
path_of (unrouted status path) = path

-- A header that is not set is "".
pub record Headers : Type 0 where
  pub x_api_key : String
  pub authorization : String

-- The key of a request: that of X-API-KEY, or what stands in Authorization, behind `Bearer ` if it
-- begins so and goes on.
unfoldable pub presented_key : Headers → String
presented_key h =
    if h.x_api_key == ""
    then if ltb 7 (len h.authorization) && starts_with h.authorization "Bearer "
      then slice h.authorization 7 (len h.authorization)
      else h.authorization
    else h.x_api_key

module _ {E W : Type 0} (rt : Runtime E W) (init_agent : String → Table String String → W → W)
    (rfc3339 : Time → String) (agent : AgentRequest → W → Option AgentAnswer × W) where
  abbrev beside : Orchestrator → Outcome E × W → Outcome E × Orchestrator × W
  beside o (r, w) = (r, o, w)

  -- The routes.
  unfoldable pub route : Request → Orchestrator → W → Outcome E × Orchestrator × W
  route (post_vms req uuid now) o w = create_vm rt init_agent rfc3339 req uuid now o w
  route get_vms o w = (list_vms rt init_agent rfc3339 o, o, w)
  route get_health o w = (health o, o, w)
  route (get_one id) o w = (get_vm rt init_agent rfc3339 id o, o, w)
  route (delete_one id) o w = delete_vm rt init_agent rfc3339 id o w
  route (post_exec id body) o w = beside o (exec_vm agent id body o w)
  route (post_exec_stream id body) o w = beside o (exec_stream_vm agent id body o w)
  route (get_files id query) o w = beside o (proxy_get_to_agent agent "/files" id query o w)
  route (get_files_list id query) o w =
      beside o (proxy_get_to_agent agent "/files/list" id query o w)
  route (put_files id query body) o w =
      beside o (proxy_body_to_agent agent "PUT" "/files" id query body o w)
  route (delete_files id path) o w = beside o (delete_file agent id path o w)
  route (post_mkdir id path) o w = beside o (mkdir agent id path o w)
  route (options path) o w = (reply 404 no_route, o, w)
  route (unrouted status path) o w = (reply status no_route, o, w)

  -- `CORS(mux)`
  unfoldable pub cors : Request → Orchestrator → W → Outcome E × Orchestrator × W
  unfolding route
  cors (options path) o w = (reply 204 preflight, o, w)
  cors req o w = route req o w

  -- `APIKeyAuth(apiKey)` around that
  unfoldable pub handler :
      String → Headers → Request → Orchestrator → W → Outcome E × Orchestrator × W
  unfolding path_of presented_key
  handler api_key h req o w =
      if path_of req == "/health" || api_key == "" || presented_key h == api_key
      then cors req o w
      else (reply 401 unauthorized, o, w)
