-- ===== src/ControlPlane/Histories/Sound.antt =====
-- The tables of nodes and pools of controlplane/db.go over a history of the control plane.
use gitvm.Base.{refl, String, Option, none, some, List, [], ◌∷◌, string_comparable}
use gitvm.Base.Table.{Table}
use gitvm.ControlPlane.Db.{Db, list_online_nodes}
use gitvm.ControlPlane.Nodes.{AreKeyed}
use gitvm.ControlPlane.Scaler.{CloudProvider}
use gitvm.ControlPlane.Scaler.Capacity.{AreBounded, same_pools, evaluate-AreBounded}
use gitvm.ControlPlane.Scaler.Keys.{
  same_nodes, upsert_node-AreKeyed, update_node_heartbeat-AreKeyed, evaluate-AreKeyed,
}
use gitvm.ControlPlane.Handlers.{
  NodeRequest, NodeAnswer, project_of, handle_pause_sandbox, handle_resume_sandbox,
}
use gitvm.ControlPlane.Handlers.NodeApi.{
  registered_node, handle_node_register, handle_node_heartbeat, with_defaults,
  handle_provision_node,
}
use gitvm.ControlPlane.Histories.{
  Event, registers_user, creates, deletes, pauses, resumes, registers_node, beats, provisions,
  scales, step, run_all,
}
use gitvm.ControlPlane.Histories.Frames.{
  register-nodes, delete-nodes, status-nodes, choose-AreKeyed, provision-AreKeyed, register-pools,
  create-pools, delete-pools, status-pools, register_node-pools, heartbeat-pools, provision-pools,
}

module _ {W : Type 0} (hash_password : String → String)
    (call : NodeRequest → W → Option NodeAnswer × W)
    (providers : Table String (CloudProvider W)) where
  step-AreKeyed :
      (e : Event) (d : Db) (w : W)
      → AreKeyed d
      → AreKeyed (step hash_password call providers e d w).0
  unfolding step handle_pause_sandbox handle_resume_sandbox handle_node_register
      handle_node_heartbeat handle_provision_node
  step-AreKeyed (registers_user c user_id project_id api_key token) d w v =
      same_nodes d _
        (register-nodes hash_password call providers c user_id project_id api_key token d []) v
  step-AreKeyed (creates c req uuid now) d w v =
      choose-AreKeyed hash_password call providers (project_of c) req c uuid now d w
        (list_online_nodes d) refl refl v
  step-AreKeyed (deletes id) d w v =
      same_nodes d _ (delete-nodes hash_password call providers id d w) v
  step-AreKeyed (pauses id) d w v =
      same_nodes d _ (status-nodes hash_password call providers "/pause" _ _ id d w) v
  step-AreKeyed (resumes id) d w v =
      same_nodes d _ (status-nodes hash_password call providers "/resume" _ _ id d w) v
  step-AreKeyed (registers_node none uuid now) d w v = v
  step-AreKeyed (registers_node (some req) uuid now) d w v =
      upsert_node-AreKeyed (registered_node req uuid now) d v
  step-AreKeyed (beats id none now) d w v = v
  step-AreKeyed (beats id (some count) now) d w v = update_node_heartbeat-AreKeyed id count now d v
  step-AreKeyed (provisions none uuid id now) d w v = v
  step-AreKeyed (provisions (some req) uuid id now) d w v =
      provision-AreKeyed hash_password call providers (with_defaults req uuid) id now d w v
  step-AreKeyed (scales fresh now) d w v = evaluate-AreKeyed providers fresh now d w v

  step-AreBounded :
      (e : Event) (d : Db) (w : W)
      → AreBounded d
      → AreBounded (step hash_password call providers e d w).0
  unfolding step handle_pause_sandbox handle_resume_sandbox
  step-AreBounded (registers_user c user_id project_id api_key token) d w v =
      same_pools d _
        (register-pools hash_password call providers c user_id project_id api_key token d []) v
  step-AreBounded (creates c req uuid now) d w v =
      same_pools d _ (create-pools hash_password call providers c req uuid now d w) v
  step-AreBounded (deletes id) d w v =
      same_pools d _ (delete-pools hash_password call providers id d w) v
  step-AreBounded (pauses id) d w v =
      same_pools d _ (status-pools hash_password call providers "/pause" _ _ id d w) v
  step-AreBounded (resumes id) d w v =
      same_pools d _ (status-pools hash_password call providers "/resume" _ _ id d w) v
  step-AreBounded (registers_node req uuid now) d w v =
      same_pools d _ (register_node-pools hash_password call providers req uuid now d) v
  step-AreBounded (beats id count now) d w v =
      same_pools d _ (heartbeat-pools hash_password call providers id count now d) v
  step-AreBounded (provisions req uuid id now) d w v =
      same_pools d _ (provision-pools hash_password call providers req uuid id now d w) v
  step-AreBounded (scales fresh now) d w v = evaluate-AreBounded providers fresh now d w v

  -- Where each node is stored once under its id, and each pool once under its id and within its
  -- maximum, this stays so over any sequence of registrations, sandbox requests, node requests and
  -- rounds of the scaler, whatever the nodes and the clouds answer.
  pub run_all-AreKeyed :
      (es : List Event) (d : Db) (w : W)
      → AreKeyed d
      → AreBounded d
      → AreKeyed (run_all hash_password call providers es d w).0
        × AreBounded (run_all hash_password call providers es d w).0
  unfolding run_all
  run_all-AreKeyed [] d w v b = (v, b)
  run_all-AreKeyed (e ∷ es) d w v b =
      let (d', w') = step hash_password call providers e d w in
      run_all-AreKeyed es d' w' (step-AreKeyed e d w v) (step-AreBounded e d w b)
