-- ===== src/Node/Control.antt =====
-- node/server.go: how a node joins its control plane and reports to it, and its health page. `ask`
-- makes a request to the control plane: its answer, or `none` where it is unreachable, is a parameter
-- and may change the world.
use gitvm.Base.{
  ℕ, String, Option, none, some, Result, ok, err, concat, decimal, leb, if◌then◌else◌, ◌==◌,
  string_comparable,
}
use gitvm.Http.{Response, respond}
use gitvm.Orchestrator.Store.{count}
use gitvm.Orchestrator.Calls.{Orchestrator}

-- The fields of `Config` that the server reads.
pub record NodeConfig : Type 0 where
  pub port : ℕ
  pub control_plane_url : String
  pub node_key : String
  pub name : String
  pub max_sandboxes : ℕ

-- The configuration and the id that the control plane has given, which is "" before that.
pub record NodeServer : Type 0 where
  pub config : NodeConfig
  pub node_id : String

abbrev pub new_server : NodeConfig → NodeServer
new_server config = record { config = config; node_id = "" }

pub record RegisterBody : Type 0 where
  pub name : String
  pub address : String
  pub max_sandboxes : ℕ
  pub node_key : String

-- A request to the control plane by its route: its body, and the node that it is for.
pub data ControlCall : Type 0 where
  post_register : RegisterBody → ControlCall
  post_heartbeat : String → ℕ → ControlCall

unfoldable pub url_of : String → ControlCall → String
url_of base (post_register body) = concat base "/internal/nodes/register"
url_of base (post_heartbeat id running) =
    concat base (concat "/internal/nodes/" (concat id "/heartbeat"))

-- With the X-Node-Key header.
pub record ControlRequest : Type 0 where
  pub url : String
  pub node_key : String
  pub call : ControlCall

-- The status, and `nodeId` of the body, which is "" where the body has none.
pub record ControlAnswer : Type 0 where
  pub status : ℕ
  pub node_id : String

pub data RegisterError : Type 0 where
  unreachable : RegisterError
  register_failed : ℕ → RegisterError

unfoldable pub register_body : NodeConfig → RegisterBody
register_body c = record {
  name = c.name;
  address = concat "http://0.0.0.0:" (decimal c.port);
  max_sandboxes = c.max_sandboxes;
  node_key = c.node_key;
}

unfoldable pub control_request : NodeConfig → ControlCall → ControlRequest
unfolding url_of
control_request c call = record {
  url = url_of c.control_plane_url call;
  node_key = c.node_key;
  call = call;
}

unfoldable pub registered :
    NodeServer → Option ControlAnswer → Result RegisterError (Unit {0}) × NodeServer
registered s none = (err unreachable, s)
registered s (some a) =
    if leb 400 a.status
    then (err (register_failed a.status), s)
    else (ok tt, record s { node_id = a.node_id })

unfoldable pub handle_health : NodeServer → Orchestrator → Response (String × ℕ × ℕ)
handle_health s o = respond 200 (s.config.name, count o.store, s.config.max_sandboxes)

module _ {W : Type 0} (ask : ControlRequest → W → Option ControlAnswer × W) where
  unfoldable pub register : NodeServer → W → Result RegisterError (Unit {0}) × NodeServer × W
  unfolding register_body control_request registered
  register s w =
      let (a, w') = ask (control_request s.config (post_register (register_body s.config))) w in
      let (r, s') = registered s a in (r, s', w')

  -- The answer is dropped.
  unfoldable pub send_heartbeat : NodeServer → Orchestrator → W → W
  unfolding control_request
  send_heartbeat s o w =
      if s.node_id == ""
      then w
      else (ask (control_request s.config (post_heartbeat s.node_id (count o.store))) w).1

  -- The part of `Start` in front of the loop: an error is only logged.
  unfoldable pub join : NodeServer → W → NodeServer × W
  unfolding register
  join s w =
      let (r, s', w') = register s w in
      if s.config.control_plane_url == "" then (s, w) else (s', w')
