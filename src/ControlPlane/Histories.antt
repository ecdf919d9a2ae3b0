-- ===== src/ControlPlane/Histories.antt =====
-- The control plane over time: the requests of controlplane/handlers.go and controlplane/auth.go that
-- change the database, and the rounds of controlplane/scaler.go, one after another.
pub mod Frames
pub mod Sound
use gitvm.Base.{
  ℕ, ◌≡◌, refl, String, Bool, true, false, Option, none, some, List, [], ◌∷◌, ok, err, arith,
  Option-cases, inl, inr, after, string_comparable, if◌then◌else◌,
}
use gitvm.Base.Clock.{Time}
use gitvm.Base.Table.{Table, lookup}
use gitvm.Runtime.{State}
use gitvm.Http.{Response}
use gitvm.ControlPlane.Types.{Node, Project, CreateSandboxRequest}
use gitvm.ControlPlane.Db.{
  Db, create_user, create_project, get_sandbox, get_node, delete_sandbox, update_sandbox_status,
  create_sandbox, upsert_node, update_node, update_node_heartbeat, list_online_nodes,
}
use gitvm.ControlPlane.Nodes.{AreKeyed}
use gitvm.ControlPlane.Auth.{Context, Credentials, Sessions, with_project, handle_register}
use gitvm.ControlPlane.Scaler.{CloudProvider, ProvisionResult, evaluate}
use gitvm.ControlPlane.Scaler.Capacity.{AreBounded, same_pools, evaluate-AreBounded}
use gitvm.ControlPlane.Scaler.Keys.{
  same_nodes, upsert_node-AreKeyed, update_node_heartbeat-AreKeyed, evaluate-AreKeyed,
}
use gitvm.ControlPlane.Handlers.{
  NodeRequest, NodeAnswer, Body, project_of, sandbox_id, new_sandbox, with_sandbox, forward_to_node,
  pick_node, create_on, place, handle_create_sandbox, handle_delete_sandbox, change_status,
  handle_pause_sandbox, handle_resume_sandbox,
}
use gitvm.ControlPlane.Handlers.Guarantees.{with_sandbox-nodes}
use gitvm.ControlPlane.Handlers.NodeApi.{
  NodeRegisterRequest, ProvisionNodeRequest, registered_node, handle_node_register,
  handle_node_heartbeat, requested_node, record_requested, provision, with_defaults,
  handle_provision_node,
}

pub data Event : Type 0 where
  registers_user : Option Credentials → String → String → String → String → Event
  creates : Context → Option CreateSandboxRequest → String → Time → Event
  deletes pauses resumes : String → Event
  registers_node : Option NodeRegisterRequest → String → Time → Event
  beats : String → Option ℕ → Time → Event
  provisions : Option ProvisionNodeRequest → String → String → Time → Event
  scales : (ℕ → String × String) → Time → Event

module _ {W : Type 0} (hash_password : String → String)
    (call : NodeRequest → W → Option NodeAnswer × W)
    (providers : Table String (CloudProvider W)) where
  -- One event. (The sessions that a registration opens are not part of the database.)
  unfoldable pub step : Event → Db → W → Db × W
  step (registers_user c user_id project_id api_key token) d w =
      ((handle_register hash_password c user_id project_id api_key token d []).1, w)
  step (creates c req uuid now) d w = after (handle_create_sandbox call c req uuid now d w)
  step (deletes id) d w = after (handle_delete_sandbox call id d w)
  step (pauses id) d w = after (handle_pause_sandbox call id d w)
  step (resumes id) d w = after (handle_resume_sandbox call id d w)
  step (registers_node req uuid now) d w = ((handle_node_register req uuid now d).1, w)
  step (beats id count now) d w = ((handle_node_heartbeat id count now d).1, w)
  step (provisions req uuid id now) d w =
      after (handle_provision_node providers req uuid id now d w)
  step (scales fresh now) d w = evaluate providers fresh now d w

  unfoldable pub run_all : List Event → Db → W → Db × W
  run_all [] d w = (d, w)
  run_all (e ∷ es) d w = let (d', w') = step e d w in run_all es d' w'
