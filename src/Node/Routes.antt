-- ===== src/Node/Routes.antt =====
-- node/server.go, `Handler`: the routes of a node, and the handler that each one runs.
use gitvm.Base.{String, Option, ℤ}
use gitvm.Base.Clock.{Time}
use gitvm.Base.Table.{Table}
use gitvm.Http.{AgentRequest, AgentAnswer, Response}
use gitvm.Runtime.{Runtime}
use gitvm.Orchestrator.Calls.{Orchestrator}
use gitvm.Node.Handlers.{
  NodeCreateRequest, Body, handle_create, handle_list, handle_get, handle_delete, handle_pause,
  handle_resume, handle_snapshot, handle_restore, handle_delete_snapshot, handle_list_snapshots,
  proxy_to_agent,
}

-- A request by its route, with its path values, query and body. The random part of an id and the
-- time that a handler reads come with it.
pub data Request : Type 0 where
  post_sandboxes : Option NodeCreateRequest → String → Time → Request
  get_sandboxes : Request
  get_sandbox delete_sandbox post_pause post_resume : String → Request
  post_snapshot : String → Option String → Time → Request
  post_restore : String → Option ℤ → String → Time → Request
  delete_snapshot get_snapshots : String → Request
  -- the id, the query and the body
  post_exec post_exec_stream get_files put_files get_files_list : String → String → String → Request

module _ {E W : Type 0} (rt : Runtime E W) (init_agent : String → Table String String → W → W)
    (agent : AgentRequest → W → Option AgentAnswer × W) where
  unfoldable pub serve : Request → Orchestrator → W → Response (Body E) × Orchestrator × W
  serve (post_sandboxes req uuid now) o w = handle_create rt init_agent req uuid now o w
  serve get_sandboxes o w = (handle_list o, o, w)
  serve (get_sandbox id) o w = (handle_get id o, o, w)
  serve (delete_sandbox id) o w = handle_delete rt init_agent id o w
  serve (post_pause id) o w = handle_pause rt init_agent id o w
  serve (post_resume id) o w = handle_resume rt init_agent id o w
  serve (post_snapshot id name now) o w = handle_snapshot rt init_agent id name now o w
  serve (post_restore snapshot_id timeout uuid now) o w =
      handle_restore rt init_agent snapshot_id timeout uuid now o w
  serve (delete_snapshot snapshot_id) o w = handle_delete_snapshot rt init_agent snapshot_id o w
  serve (get_snapshots id) o w = handle_list_snapshots rt init_agent id o w
  serve (post_exec id query body) o w = proxy_to_agent agent "POST" "/exec" id query body o w
  serve (post_exec_stream id query body) o w =
      proxy_to_agent agent "POST" "/exec/stream" id query body o w
  serve (get_files id query body) o w = proxy_to_agent agent "GET" "/files" id query body o w
  serve (put_files id query body) o w = proxy_to_agent agent "PUT" "/files" id query body o w
  serve (get_files_list id query body) o w =
      proxy_to_agent agent "GET" "/files/list" id query body o w
