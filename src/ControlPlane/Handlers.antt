-- ===== src/ControlPlane/Handlers.antt =====
-- controlplane/handlers.go: the sandboxes and the nodes. A node is reached over HTTP: its answer, or
-- `none` where it is unreachable, is a parameter and may change the world `W`. A random part of an id
-- and the time that is read are arguments.
pub mod NodeApi
pub mod Placement
pub mod Guarantees
use gitvm.Base.{
  ℕ, suc, ◌+◌, String, Bool, true, false, Option, none, some, List, [], ◌∷◌, Result, ok, err, ℤ,
  pos, ltb, concat, positive_or, if◌then◌else◌, ◌==◌, string_comparable,
}
use Prim.Native.String.{len, slice}
use text.Mathlib.Text.{starts_with, find?}
use gitvm.Base.Clock.{Time, add_seconds}
use gitvm.Base.Table.{Table}
use gitvm.Http.{Response, respond}
use gitvm.Runtime.{State, running, paused}
use gitvm.Node.Handlers.{NodeCreateRequest}
use gitvm.ControlPlane.Types.{Node, online, Sandbox, Project, CreateSandboxRequest}
use gitvm.ControlPlane.Db.{
  Db, create_sandbox, get_sandbox, list_sandboxes, update_sandbox_status, delete_sandbox, get_node,
  list_online_nodes, list_nodes, update_node_heartbeat, upsert_node, total_capacity,
}
use gitvm.ControlPlane.Auth.{Context, anonymous, of_project, of_user}

-- What the handlers write. The text of an error is left out where it only passes one on.
pub data Body : Type 0 where
  no_project_context bad_request no_nodes_available all_nodes_at_capacity node_error : Body
  node_not_found node_unreachable : Body
  sandbox_not_found : String → Body
  created : String → String → Body
  listed : List Sandbox → Body
  described : Sandbox → Body
  deleted is_paused is_running ok_status : Body
  from_node : String → Body
  registered : String → Body
  nodes : List Node → Body
  provider_not_found : String → Body
  provision_failed : Body
  provisioned : Node → Body
  health : ℕ → ℕ → Body

-- The body of a request to a node.
pub data NodeBody : Type 0 where
  no_body : NodeBody
  create_body : NodeCreateRequest → NodeBody
  raw : String → NodeBody

pub record NodeRequest : Type 0 where
  pub method : String
  pub url : String
  pub body : NodeBody

pub record NodeAnswer : Type 0 where
  pub status : ℕ
  pub body : String

-- The first node that has room.
unfoldable pub pick_node : List Node → Option Node
pick_node [] = none
pick_node (n ∷ ns) =
    let rest = pick_node ns in if ltb n.running n.max_sandboxes then some n else rest

abbrev pub project_of : Context → Option Project
project_of (of_project p) = some p
project_of _ = none

abbrev pub template_or_base : String → String
template_or_base template = if template == "" then "base" else template

abbrev pub sandbox_id : String → String
sandbox_id uuid = concat "sb-" uuid

unfoldable pub node_request : String → CreateSandboxRequest → NodeCreateRequest
node_request id req = record {
  sandbox_id = id;
  template = req.template;
  vcpus = req.vcpus;
  memory_mb = req.memory_mb;
  timeout = req.timeout;
  env_vars = req.env_vars;
}

unfoldable pub new_sandbox : Project → Node → String → CreateSandboxRequest → Time → Sandbox
new_sandbox project node id req now = record {
  id = id;
  project_id = project.id;
  node_id = node.id;
  template = template_or_base req.template;
  status = running;
  vcpus = positive_or 1 req.vcpus;
  memory_mb = positive_or 512 req.memory_mb;
  host_ip = node.public_ip;
  timeout_sec = positive_or 300 req.timeout;
  created_at = now;
  expires_at = add_seconds now (positive_or 300 req.timeout);
}

-- A failure to record the sandbox is only logged.
unfoldable pub with_sandbox : Sandbox → Db → Db
with_sandbox s d = elim (create_sandbox s d) [ err _ ↦ d | ok d' ↦ d' ]

unfoldable pub handle_list_sandboxes : Context → Db → Response Body
handle_list_sandboxes c d = elim (project_of c) [
  | none ↦ respond 401 no_project_context
  | some project ↦ respond 200 (listed (list_sandboxes project.id d))
]

unfoldable pub handle_get_sandbox : String → Db → Response Body
handle_get_sandbox id d = elim (get_sandbox id d) [
  | none ↦ respond 404 (sandbox_not_found id)
  | some s ↦ respond 200 (described s)
]

-- `if r.URL.RawQuery != ""`
abbrev pub with_query : String → String → String
with_query url query = if query == "" then url else concat url (concat "?" query)

unfoldable pub proxied : Option NodeAnswer → Response Body
proxied none = respond 502 node_unreachable
proxied (some a) = respond a.status (from_node a.body)

module _ {W : Type 0} (call : NodeRequest → W → Option NodeAnswer × W) where
  -- `forwardToNode`: whether it returns no error.
  unfoldable pub forward_to_node : Node → String → String → NodeBody → W → Bool × W
  forward_to_node node method path body w =
      let (a, w') =
        call (record { method = method; url = concat node.address path; body = body }) w in
      (elim a [ none ↦ false | some answer ↦ ltb answer.status 400 ], w')

  -- `handleCreateSandbox` behind the choice of the node.
  unfoldable pub create_on :
      Project → CreateSandboxRequest → String → Time → Db → Node → Bool × W → Response Body × Db × W
  unfolding with_sandbox new_sandbox update_node_heartbeat
  create_on project req id now d node (false, w) = (respond 502 node_error, d, w)
  create_on project req id now d node (true, w) = (
    respond 200 (created id node.public_ip),
    update_node_heartbeat node.id (suc node.running) now
        (with_sandbox (new_sandbox project node id req now) d),
    w,
  )

  unfoldable pub place :
      Project → CreateSandboxRequest → String → Time → Db → W → Option Node → Response Body × Db × W
  unfolding create_on forward_to_node node_request
  place project req id now d w none = (respond 503 all_nodes_at_capacity, d, w)
  place project req id now d w (some node) =
      create_on project req id now d node
        (forward_to_node node "POST" "/sandboxes" (create_body (node_request id req)) w)

  unfoldable pub handle_create_sandbox :
      Context → Option CreateSandboxRequest → String → Time → Db → W → Response Body × Db × W
  unfolding place pick_node
  handle_create_sandbox c req uuid now d w = elim (project_of c) [
    | none ↦ (respond 401 no_project_context, d, w)
    | some project ↦ elim req [
      | none ↦ (respond 400 bad_request, d, w)
      | some body ↦ elim (list_online_nodes d) [
        | [] ↦ (respond 503 no_nodes_available, d, w)
        | n ∷ ns ↦ place project body (sandbox_id uuid) now d w (pick_node (n ∷ ns))
      ]
    ]
  ]

  -- The node's answer is only logged.
  unfoldable pub handle_delete_sandbox : String → Db → W → Response Body × Db × W
  unfolding forward_to_node
  handle_delete_sandbox id d w = elim (get_sandbox id d) [
    | none ↦ (respond 404 (sandbox_not_found id), d, w)
    | some s ↦ elim (get_node s.node_id d) [
      | none ↦ (respond 500 node_not_found, d, w)
      | some node ↦
          let (_, w') = forward_to_node node "DELETE" (concat "/sandboxes/" id) no_body w in
          (respond 200 deleted, delete_sandbox id d, w')
    ]
  ]

  -- `handlePauseSandbox` and `handleResumeSandbox`: the end of the path, the new status, the answer.
  unfoldable pub change_status : String → State → Body → String → Db → W → Response Body × Db × W
  unfolding forward_to_node update_sandbox_status
  change_status suffix status answer id d w = elim (get_sandbox id d) [
    | none ↦ (respond 404 (sandbox_not_found id), d, w)
    | some s ↦ elim (get_node s.node_id d) [
      | none ↦ (respond 500 node_not_found, d, w)
      | some node ↦
          let path = concat "/sandboxes/" (concat id suffix) in
          let (done, w') = forward_to_node node "POST" path no_body w in
          if done
          then (respond 200 answer, update_sandbox_status id status d, w')
          else (respond 502 node_error, d, w')
    ]
  ]

  unfoldable pub handle_pause_sandbox : String → Db → W → Response Body × Db × W
  unfolding change_status
  handle_pause_sandbox = change_status "/pause" paused is_paused

  unfoldable pub handle_resume_sandbox : String → Db → W → Response Body × Db × W
  unfolding change_status
  handle_resume_sandbox = change_status "/resume" running is_running

  unfoldable pub proxy_sandbox_to_node :
      String → String → String → String → String → Db → W → Response Body × W
  unfolding proxied
  proxy_sandbox_to_node method subpath id query body d w = elim (get_sandbox id d) [
    | none ↦ (respond 404 (sandbox_not_found id), w)
    | some s ↦ elim (get_node s.node_id d) [
      | none ↦ (respond 500 node_not_found, w)
      | some node ↦
          let url = concat node.address (concat "/sandboxes/" (concat id subpath)) in
          let (a, w') =
            call (record { method = method; url = with_query url query; body = raw body }) w in
          (proxied a, w')
    ]
  ]
