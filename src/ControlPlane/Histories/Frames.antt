-- ===== src/ControlPlane/Histories/Frames.antt =====
-- What the requests of controlplane/handlers.go and controlplane/auth.go do to the nodes and to the
-- pools.
use gitvm.Base.{
  ℕ, ◌≡◌, refl, String, Bool, true, false, Option, none, some, List, [], ◌∷◌, arith, Option-cases,
  inl, inr, string_comparable,
}
use gitvm.Base.Clock.{Time}
use gitvm.Base.Table.{Table, lookup}
use gitvm.Runtime.{State}
use gitvm.ControlPlane.Types.{Node, Project, CreateSandboxRequest}
use gitvm.ControlPlane.Db.{
  Db, create_user, create_project, delete_sandbox, update_sandbox_status, create_sandbox,
  upsert_node, update_node, update_node_heartbeat, list_online_nodes,
}
use gitvm.ControlPlane.Nodes.{AreKeyed}
use gitvm.ControlPlane.Auth.{Context, Credentials, Sessions, with_project, handle_register}
use gitvm.ControlPlane.Scaler.{CloudProvider, ProvisionResult}
use gitvm.ControlPlane.Scaler.Keys.{
  same_nodes, upsert_node-AreKeyed, update_node_heartbeat-AreKeyed,
}
use gitvm.ControlPlane.Handlers.{
  NodeRequest, NodeAnswer, Body, project_of, sandbox_id, new_sandbox, with_sandbox, pick_node,
  create_on, place, handle_create_sandbox, handle_delete_sandbox, change_status,
}
use gitvm.ControlPlane.Handlers.Guarantees.{with_sandbox-nodes}
use gitvm.ControlPlane.Handlers.NodeApi.{
  NodeRegisterRequest, ProvisionNodeRequest, handle_node_register, handle_node_heartbeat,
  requested_node, record_requested, provision, handle_provision_node,
}

module _ {W : Type 0} (hash_password : String → String)
    (call : NodeRequest → W → Option NodeAnswer × W)
    (providers : Table String (CloudProvider W)) where
  pub register-nodes :
      (c : Option Credentials) (user_id project_id api_key token : String) (d : Db) (s : Sessions)
      → (handle_register hash_password c user_id project_id api_key token d s).1.nodes ≡ d.nodes
  unfolding handle_register with_project create_project create_user
  register-nodes none user_id project_id api_key token d s = refl
  register-nodes (some c) user_id project_id api_key token d s = ground arith

  pub delete-nodes :
      (id : String) (d : Db) (w : W) → (handle_delete_sandbox call id d w).1.nodes ≡ d.nodes
  unfolding handle_delete_sandbox delete_sandbox
  delete-nodes id d w = ground arith

  pub status-nodes :
      (suffix : String) (s : State) (b : Body) (id : String) (d : Db) (w : W)
      → (change_status call suffix s b id d w).1.nodes ≡ d.nodes
  unfolding change_status update_sandbox_status
  status-nodes suffix s b id d w = ground arith

  pub create_on-AreKeyed :
      (p : Project) (req : CreateSandboxRequest) (id : String) (now : Time) (d : Db) (n : Node)
      (r : Bool × W)
      → AreKeyed d
      → AreKeyed (create_on call p req id now d n r).1
  unfolding create_on
  create_on-AreKeyed p req id now d n (false, w) v = v
  create_on-AreKeyed p req id now d n (true, w) v =
      let s = new_sandbox p n id req now in
      update_node_heartbeat-AreKeyed n.id _ now (with_sandbox s d)
        (same_nodes d (with_sandbox s d) (with_sandbox-nodes s d) v)

  pub place-AreKeyed :
      (p : Project) (req : CreateSandboxRequest) (id : String) (now : Time) (d : Db) (w : W)
      (o : Option Node)
      → AreKeyed d
      → AreKeyed (place call p req id now d w o).1
  unfolding place
  place-AreKeyed p req id now d w none v = v
  place-AreKeyed p req id now d w (some n) v = create_on-AreKeyed p req id now d n _ v

  pub choose-AreKeyed :
      (o : Option Project) (req : Option CreateSandboxRequest) (c : Context) (uuid : String)
      (now : Time) (d : Db) (w : W) (ns : List Node)
      → project_of c ≡ o
      → list_online_nodes d ≡ ns
      → AreKeyed d
      → AreKeyed (handle_create_sandbox call c req uuid now d w).1
  unfolding handle_create_sandbox
  choose-AreKeyed none req c uuid now d w ns h k v = rw (h, handle_create_sandbox) v
  choose-AreKeyed (some p) none c uuid now d w ns h k v = rw (h, handle_create_sandbox) v
  choose-AreKeyed (some p) (some req) c uuid now d w [] h k v = rw (h, k, handle_create_sandbox) v
  choose-AreKeyed (some p) (some req) c uuid now d w (n ∷ ns) h k v =
      rw (h, k, handle_create_sandbox)
        (place-AreKeyed p req (sandbox_id uuid) now d w (pick_node (n ∷ ns)) v)

  pub record_requested-AreKeyed :
      (req : ProvisionNodeRequest) (id : String) (now : Time) (d : Db)
      (r : Option ProvisionResult × W)
      → AreKeyed d
      → AreKeyed (record_requested req id now d r).1
  unfolding record_requested
  record_requested-AreKeyed req id now d (none, w) v = v
  record_requested-AreKeyed req id now d (some result, w) v =
      upsert_node-AreKeyed (requested_node req id now result) d v

  pub provision-AreKeyed :
      (req : ProvisionNodeRequest) (id : String) (now : Time) (d : Db) (w : W)
      → AreKeyed d
      → AreKeyed (provision providers req id now d w).1
  unfolding provision
  provision-AreKeyed req id now d w v = elim (Option-cases (lookup req.provider providers)) [
    | inl missing ↦ rw (missing, provision) v
    | inr (provider, there) ↦ rw (there, provision) (record_requested-AreKeyed req id now d _ v)
  ]

  pub register-pools :
      (c : Option Credentials) (user_id project_id api_key token : String) (d : Db) (s : Sessions)
      → (handle_register hash_password c user_id project_id api_key token d s).1.cloud_pools
        ≡ d.cloud_pools
  unfolding handle_register with_project create_project create_user
  register-pools none user_id project_id api_key token d s = refl
  register-pools (some c) user_id project_id api_key token d s = ground arith

  pub create-pools :
      (c : Context) (req : Option CreateSandboxRequest) (uuid : String) (now : Time) (d : Db)
      (w : W)
      → (handle_create_sandbox call c req uuid now d w).1.cloud_pools ≡ d.cloud_pools
  unfolding handle_create_sandbox place create_on with_sandbox create_sandbox update_node_heartbeat
      update_node
  create-pools c req uuid now d w = ground arith

  pub delete-pools :
      (id : String) (d : Db) (w : W)
      → (handle_delete_sandbox call id d w).1.cloud_pools ≡ d.cloud_pools
  unfolding handle_delete_sandbox delete_sandbox
  delete-pools id d w = ground arith

  pub status-pools :
      (suffix : String) (s : State) (b : Body) (id : String) (d : Db) (w : W)
      → (change_status call suffix s b id d w).1.cloud_pools ≡ d.cloud_pools
  unfolding change_status update_sandbox_status
  status-pools suffix s b id d w = ground arith

  pub register_node-pools :
      (req : Option NodeRegisterRequest) (uuid : String) (now : Time) (d : Db)
      → (handle_node_register req uuid now d).1.cloud_pools ≡ d.cloud_pools
  unfolding handle_node_register upsert_node
  register_node-pools none uuid now d = refl
  register_node-pools (some req) uuid now d = ground arith

  pub heartbeat-pools :
      (id : String) (count : Option ℕ) (now : Time) (d : Db)
      → (handle_node_heartbeat id count now d).1.cloud_pools ≡ d.cloud_pools
  unfolding handle_node_heartbeat update_node_heartbeat update_node
  heartbeat-pools id none now d = refl
  heartbeat-pools id (some count) now d = ground arith

  pub provision-pools :
      (req : Option ProvisionNodeRequest) (uuid id : String) (now : Time) (d : Db) (w : W)
      → (handle_provision_node providers req uuid id now d w).1.cloud_pools ≡ d.cloud_pools
  unfolding handle_provision_node provision record_requested upsert_node
  provision-pools none uuid id now d w = refl
  provision-pools (some req) uuid id now d w = ground arith
