-- ===== src/Node/Joining.antt =====
-- node/server.go against controlplane/auth.go and handlers.go: a node and its control plane.
use gitvm.Base.{
  ℕ, ◌≡◌, ◌≢◌, refl, String, Option, none, some, [], ok, err, concat, decimal, arith,
  string_comparable, ==_refl,
}
use gitvm.Base.Clock.{Time}
use gitvm.Base.Table.{insert, lookup-insert_self}
use gitvm.Http.{Response}
use gitvm.Orchestrator.Store.{count}
use gitvm.Orchestrator.Calls.{Orchestrator}
use gitvm.ControlPlane.Types.{Node, online}
use gitvm.ControlPlane.Db.{
  Db, stored_time, stored_node, upsert_node, update_node, update_node_heartbeat, get_node,
}
use gitvm.ControlPlane.Auth.{granted, anonymous, authorize}
use gitvm.ControlPlane.Handlers.NodeApi.{
  NodeRegisterRequest, registered_node, extract_ip, handle_node_register, handle_node_heartbeat,
}
use gitvm.ControlPlane.Handlers as Handlers
use gitvm.ControlPlane.Handlers.{Body}
use gitvm.Node.Control.{
  NodeConfig, NodeServer, new_server, RegisterBody, ControlCall, post_register, post_heartbeat,
  url_of, ControlRequest, ControlAnswer, RegisterError, register_body, control_request, registered,
  register, send_heartbeat,
}

abbrev path_of : ControlCall → String
path_of (post_register body) = "/internal/nodes/register"
path_of (post_heartbeat id running) = concat "/internal/nodes/" (concat id "/heartbeat")

-- `NodeRegisterRequest` decoded from the body of a node, which names no region.
abbrev decoded : RegisterBody → NodeRegisterRequest
decoded b = record {
  name = b.name;
  address = b.address;
  max_sandboxes = b.max_sandboxes;
  region = "";
}

-- `nodeId` of the body of an answer
abbrev node_id_in : Body → String
node_id_in (Handlers.registered id) = id
node_id_in _ = ""

abbrev answered : Response Body × Db → Option ControlAnswer × Db
answered (r, d) = (some (record { status = r.status; node_id = node_id_in r.body }), d)

-- The handler of a call, at a time; a new node gets the id `uuid`.
abbrev handled : String → Time → ControlCall → Db → Option ControlAnswer × Db
handled uuid now (post_register body) d =
    answered (handle_node_register (some (decoded body)) uuid now d)
handled uuid now (post_heartbeat id running) d =
    answered (handle_node_heartbeat id (some running) now d)

-- The control plane as a node reaches it, with its node key.
abbrev pub plane : String → String → Time → ControlRequest → Db → Option ControlAnswer × Db
plane key uuid now req d =
    elim (authorize key d [] (record {
      path = path_of req.call;
      node_key = req.node_key;
      api_key = "";
      session_cookie = none;
    })) [
      | granted _ ↦ handled uuid now req.call d
      | _ ↦ (some (record { status = 401; node_id = "" }), d)
    ]

-- The node that has joined and has reported once, as the control plane stores it.
abbrev pub reported : NodeConfig → String → Time → Time → ℕ → Node
reported c uuid now later running = record {
  id = uuid;
  name = c.name;
  address = concat "http://0.0.0.0:" (decimal c.port);
  public_ip = extract_ip (concat "http://0.0.0.0:" (decimal c.port));
  provider = "custom";
  provider_id = "";
  region = "";
  instance_type = "";
  status = online;
  max_sandboxes = c.max_sandboxes;
  running = running;
  last_seen = stored_time later;
  created_at = stored_time now;
}

node_authorized :
    (key path : String) (d : Db)
    → key ≢ ""
    → authorize key d []
        (record { path = path; node_key = key; api_key = ""; session_cookie = none })
      ≡ granted anonymous
unfolding authorize
node_authorized key path d nonempty = ground (arith, string_comparable.same_iff key "", ==_refl key)

plane_granted :
    (key uuid url : String) (now : Time) (call : ControlCall) (d : Db)
    → key ≢ ""
    → plane key uuid now (record { url = url; node_key = key; call = call }) d
      ≡ handled uuid now call d
plane_granted key uuid url now call d nonempty =
    rw (node_authorized key (path_of call) d nonempty, plane) refl

abbrev joined : NodeConfig → String → NodeServer
joined c uuid = record (new_server c) { node_id = uuid }

abbrev known : NodeConfig → String → Time → Node
known c uuid now = registered_node (decoded (register_body c)) uuid now

register_granted :
    (c : NodeConfig) (uuid : String) (now : Time) (d : Db)
    → c.node_key ≢ ""
    → register (plane c.node_key uuid now) (new_server c) d
      ≡ (ok tt, joined c uuid, upsert_node (known c uuid now) d)
unfolding register control_request registered handle_node_register
register_granted c uuid now d keyed =
    rw (node_authorized c.node_key "/internal/nodes/register" d keyed, plane) refl

heartbeat_granted :
    (c : NodeConfig) (o : Orchestrator) (uuid unused : String) (later : Time) (d : Db)
    → c.node_key ≢ ""
    → uuid ≢ ""
    → send_heartbeat (plane c.node_key unused later) (joined c uuid) o d
      ≡ update_node_heartbeat uuid (count o.store) later d
unfolding send_heartbeat control_request handle_node_heartbeat
heartbeat_granted c o uuid unused later d keyed named = ground (
  arith,
  string_comparable.same_iff uuid "",
  plane_granted c.node_key unused (url_of c.control_plane_url (post_heartbeat uuid (count o.store)))
      later (post_heartbeat uuid (count o.store)) d keyed,
)

upsert_new :
    (n : Node) (d : Db)
    → get_node n.id d ≡ none
    → upsert_node n d ≡ record d { nodes = insert n.id (stored_node n) d.nodes }
unfolding upsert_node get_node
upsert_new n d fresh = rw (fresh, upsert_node) refl

get_node-heartbeat :
    (id : String) (running : ℕ) (now : Time) (n : Node) (d : Db)
    → get_node id d ≡ some n
    → get_node id (update_node_heartbeat id running now d)
      ≡ some (record n { running = running; last_seen = stored_time now; status = online })
unfolding update_node_heartbeat update_node get_node
get_node-heartbeat id running now n d found =
    rw (found, update_node)
      (lookup-insert_self id
        (record n { running = running; last_seen = stored_time now; status = online }) d.nodes)

get_node-upsert :
    (n : Node) (d : Db)
    → get_node n.id d ≡ none
    → get_node n.id (upsert_node n d) ≡ some (stored_node n)
unfolding get_node
get_node-upsert n d fresh =
    rw (upsert_new n d fresh) (lookup-insert_self n.id (stored_node n) d.nodes)

heartbeat_known :
    (c : NodeConfig) (uuid : String) (now later : Time) (running : ℕ) (d : Db)
    → get_node uuid d ≡ none
    → get_node uuid (update_node_heartbeat uuid running later (upsert_node (known c uuid now) d))
      ≡ some (reported c uuid now later running)
unfolding registered_node stored_node register_body
heartbeat_known c uuid now later running d fresh =
    get_node-heartbeat uuid running later (stored_node (known c uuid now))
      (upsert_node (known c uuid now) d) (get_node-upsert (known c uuid now) d fresh)

-- A node with the non-empty node key of its control plane registers there without an error and
-- gets the id that the control plane has made, not in use and not empty; after its next heartbeat
-- that id is stored as online, with the number of its sandboxes, and with the address
-- http://0.0.0.0 and its port, which the node has sent.
pub send_heartbeat-register :
    (c : NodeConfig) (o : Orchestrator) (uuid unused : String) (now later : Time) (d : Db)
    → c.node_key ≢ ""
    → uuid ≢ ""
    → get_node uuid d ≡ none
    → let (r, s, d₁) = register (plane c.node_key uuid now) (new_server c) d in
      let d₂ = send_heartbeat (plane c.node_key unused later) s o d₁ in
      (r ≡ ok tt)
      × (s.node_id ≡ uuid)
      × (get_node uuid d₂ ≡ some (reported c uuid now later (count o.store)))
send_heartbeat-register c o uuid unused now later d keyed named fresh =
    rw
      (
        register_granted c uuid now d keyed,
        heartbeat_granted c o uuid unused later (upsert_node (known c uuid now) d) keyed named,
      )
      (refl, refl, heartbeat_known c uuid now later (count o.store) d fresh)

registered-err :
    (s : NodeServer) (a : Option ControlAnswer) (e : RegisterError)
    → (registered s a).0 ≡ err e
    → (registered s a).1 ≡ s
unfolding registered
registered-err s none e failed = refl
registered-err s (some a) e failed = ground arith

-- Where a registration fails at a node without an id, the node sends no heartbeat.
pub register_failed-silent :
    {W : Type 0} (ask : ControlRequest → W → Option ControlAnswer × W) (s : NodeServer) (w : W)
    (e : RegisterError)
    → s.node_id ≡ ""
    → (register ask s w).0 ≡ err e
    → (o : Orchestrator) (v : W) → send_heartbeat ask (register ask s w).1 o v ≡ v
unfolding register send_heartbeat
register_failed-silent ask s w e unnamed failed o v =
    rw
      (
        registered-err s
            (ask (control_request s.config (post_register (register_body s.config))) w).0 e failed,
        unnamed,
      )
      refl
