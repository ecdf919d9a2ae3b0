-- ===== src/ControlPlane/Handlers/Guarantees.antt =====
-- What the handlers of controlplane/handlers.go do to the database.
use gitvm.Base.{
  Option-cases, inl, inr, ℕ, suc, ◌≡◌, refl, String, Bool, true, false, Option, none, some, arith,
  string_comparable, if◌then◌else◌, ◌==◌, ap, ◌∙◌,
}
use gitvm.Base.Clock.{Time}
use gitvm.Base.Table.{lookup, lookup-insert_self, lookup-remove}
use gitvm.Http.{Response, respond}
use gitvm.ControlPlane.Types.{Node, online, Sandbox, Project, CreateSandboxRequest}
use gitvm.ControlPlane.Db.{
  Db, get_node, get_sandbox, create_sandbox, stored_sandbox, stored_time, delete_sandbox,
  update_node, update_node_heartbeat,
}
use gitvm.ControlPlane.Handlers.NodeApi.{handle_node_heartbeat}
use gitvm.ControlPlane.Handlers.{
  NodeRequest, NodeAnswer, Body, ok_status, create_body, node_request, new_sandbox, with_sandbox,
  forward_to_node, create_on, handle_delete_sandbox,
}

update_node_heartbeat-get :
    (id : String) (running : ℕ) (now : Time) (d : Db) (n : Node)
    → get_node id d ≡ some n
    → get_node id (update_node_heartbeat id running now d)
      ≡ some (record n { running = running; last_seen = stored_time now; status = online })
unfolding get_node update_node_heartbeat update_node
update_node_heartbeat-get id running now d n there =
    rw (there, update_node) (lookup-insert_self id _ d.nodes)

-- A heartbeat of a node in the table is answered by 200 and makes the node online, whatever its
-- status was, with the count and the time of the heartbeat and no other change.
pub handle_node_heartbeat-get :
    (id : String) (count : ℕ) (now : Time) (d : Db) (n : Node)
    → get_node id d ≡ some n
    → ((handle_node_heartbeat id (some count) now d).0 ≡ respond 200 ok_status)
      × (get_node id (handle_node_heartbeat id (some count) now d).1
          ≡ some (record n { running = count; last_seen = stored_time now; status = online }))
unfolding handle_node_heartbeat
handle_node_heartbeat-get id count now d n there =
    (refl, update_node_heartbeat-get id count now d n there)

pub with_sandbox-nodes : (s : Sandbox) (d : Db) → (with_sandbox s d).nodes ≡ d.nodes
unfolding with_sandbox create_sandbox
with_sandbox-nodes s d = ground arith

with_sandbox-get :
    (s : Sandbox) (d : Db)
    → get_sandbox s.id d ≡ none
    → get_sandbox s.id (with_sandbox s d) ≡ some (stored_sandbox s)
unfolding with_sandbox create_sandbox get_sandbox
with_sandbox-get s d fresh =
    rw (fresh, create_sandbox, with_sandbox) (lookup-insert_self s.id _ d.sandboxes)

heartbeat-sandboxes :
    (id : String) (running : ℕ) (now : Time) (d : Db)
    → (update_node_heartbeat id running now d).sandboxes ≡ d.sandboxes
unfolding update_node_heartbeat update_node
heartbeat-sandboxes id running now d = ground arith

get_node-same : (id : String) (d d' : Db) → d'.nodes ≡ d.nodes → get_node id d' ≡ get_node id d
unfolding get_node
get_node-same id d d' e = ap (lookup id) e

get_sandbox-same :
    (id : String) (d d' : Db) → d'.sandboxes ≡ d.sandboxes → get_sandbox id d' ≡ get_sandbox id d
unfolding get_sandbox
get_sandbox-same id d d' e = ap (lookup id) e

delete_sandbox-get :
    (id j : String) (d : Db)
    → get_sandbox j (delete_sandbox id d) ≡ (if id == j then none else get_sandbox j d)
unfolding get_sandbox delete_sandbox
delete_sandbox-get id j d = lookup-remove id j d.sandboxes

-- What a delete leaves of sandbox `j`.
abbrev pub unless_deleted : String → String → Db → Option Sandbox
unless_deleted id j d = elim (get_sandbox id d) [
  | none ↦ get_sandbox j d
  | some s ↦ elim (get_node s.node_id d) [
    | none ↦ get_sandbox j d
    | some _ ↦ if id == j then none else get_sandbox j d
  ]
]

module _ {W : Type 0} (call : NodeRequest → W → Option NodeAnswer × W) where
  -- How a request of a project for a sandbox is answered, by the node that is chosen.
  abbrev pub IsPlaced :
      Project
      → CreateSandboxRequest
      → String
      → Time
      → Db
      → W
      → Option Node
      → Response Body × Db × W
      → Type 0
  IsPlaced project req id now d w none r = (r.0.status ≡ 503) × (r.1 ≡ d) × (r.2 ≡ w)
  IsPlaced project req id now d w (some n) r =
      r
      ≡ create_on call project req id now d n
          (forward_to_node call n "POST" "/sandboxes" (create_body (node_request id req)) w)

  -- Where the id of the sandbox is unused and the node is in the table: once the node has
  -- accepted, the sandbox is in the table with its project and node and the node counts one more;
  -- where the node refuses or does not answer, nothing is recorded.
  pub create_on-get :
      (project : Project) (req : CreateSandboxRequest) (id : String) (now : Time) (d : Db)
      (n : Node) (done : Bool) (w : W)
      → get_sandbox id d ≡ none
      → get_node n.id d ≡ some n
      → (get_sandbox id (create_on call project req id now d n (done, w)).1
          ≡ (if done then some (stored_sandbox (new_sandbox project n id req now)) else none))
        × (get_node n.id (create_on call project req id now d n (done, w)).1
            ≡ some (
                if done
                then record n {
                  running = suc n.running;
                  last_seen = stored_time now;
                  status = online;
                }
                else n))
  unfolding create_on
  create_on-get project req id now d n false w fresh there = (fresh, there)
  create_on-get project req id now d n true w fresh there =
      let s = new_sandbox project n id req now in
      let d' = with_sandbox s d in
      (
        get_sandbox-same id d' (update_node_heartbeat n.id (suc n.running) now d')
              (heartbeat-sandboxes n.id (suc n.running) now d')
            ∙ with_sandbox-get s d fresh,
        update_node_heartbeat-get n.id (suc n.running) now d' n
            (get_node-same n.id d d' (with_sandbox-nodes s d) ∙ there),
      )

  -- A delete forgets the sandbox that it names, where that and its node are in the tables, and no
  -- other; its answer and the database that it leaves do not depend on what the node does.
  pub handle_delete_sandbox-get :
      (other : NodeRequest → W → Option NodeAnswer × W) (id j : String) (d : Db) (w w' : W)
      → (get_sandbox j (handle_delete_sandbox call id d w).1 ≡ unless_deleted id j d)
        × ((handle_delete_sandbox call id d w).0 ≡ (handle_delete_sandbox other id d w').0)
        × ((handle_delete_sandbox call id d w).1 ≡ (handle_delete_sandbox other id d w').1)
  unfolding handle_delete_sandbox
  handle_delete_sandbox-get other id j d w w' = elim (Option-cases (get_sandbox id d)) [
    | inl missing ↦ rw (missing, handle_delete_sandbox, unless_deleted) (refl, refl, refl)
    | inr (s, there) ↦ elim (Option-cases (get_node s.node_id d)) [
      | inl lost ↦ rw (there, lost, handle_delete_sandbox, unless_deleted) (refl, refl, refl)
      | inr (n, node) ↦
          rw (there, node, handle_delete_sandbox, unless_deleted)
            (delete_sandbox-get id j d, refl, refl)
    ]
  ]
