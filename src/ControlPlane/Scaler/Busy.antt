-- ===== src/ControlPlane/Scaler/Busy.antt =====
-- The scaler of controlplane/scaler.go and the nodes that run sandboxes.
use gitvm.Base.{
  suc, ◌-◌, ◌≡◌, ◌≢◌, ◌⊎◌, inl, inr, refl, ◌∙◌, String, Bool, true, false, Option, none, some, List,
  [], ◌∷◌, arith, Bool-cases, Option-cases, string_comparable, ltb, ◌&&◌,
}
use gitvm.Base.Clock.{Time}
use gitvm.Base.Table.{Table, lookup, lookup-insert, lookup-insert_ne, lookup-remove_ne}
use gitvm.ControlPlane.Types.{Node, NodeStatus, CloudPool, draining, terminating}
use gitvm.ControlPlane.Db.{
  Db, get_node, upsert_node, upsert_cloud_pool, update_node, update_node_status, delete_node,
  total_capacity, list_online_nodes,
}
use gitvm.ControlPlane.Nodes.{AreKeyed, All, IsOnline, list_online_nodes-All}
use gitvm.ControlPlane.Scaler.{
  CloudProvider, ProvisionResult, is_high, is_low, provisioned_node, first_empty, first_of,
  pick_target, record_provisioned, record_terminated, scale_up, terminate_node, drain, scale_down,
  evaluate_pool,
}

pub upsert_cloud_pool-nodes : (p : CloudPool) (d : Db) → (upsert_cloud_pool p d).nodes ≡ d.nodes
unfolding upsert_cloud_pool
upsert_cloud_pool-nodes p d = ground arith

update_node_status-get_ne :
    (i id : String) (s : NodeStatus) (d : Db)
    → i ≢ id
    → get_node id (update_node_status i s d) ≡ get_node id d
unfolding get_node update_node_status update_node
update_node_status-get_ne i id s d apart = elim (Option-cases (lookup i d.nodes)) [
  | inl missing ↦ rw (missing, update_node) refl
  | inr (n, there) ↦ rw (there, update_node) (lookup-insert_ne i id _ d.nodes apart)
]

pub update_node_status-get_self :
    (id : String) (s : NodeStatus) (d : Db) (n : Node)
    → get_node id d ≡ some n
    → get_node id (update_node_status id s d) ≡ some (record n { status = s })
unfolding get_node update_node_status update_node
update_node_status-get_self id s d n there =
    rw (there, update_node)
      (ground (
        arith,
        lookup-insert id id (record n { status = s }) d.nodes,
        string_comparable.same_iff id id,
      ))

upsert_node-get_ne :
    (n : Node) (id : String) (d : Db) → n.id ≢ id → get_node id (upsert_node n d) ≡ get_node id d
unfolding get_node upsert_node
upsert_node-get_ne n id d apart = elim (Option-cases (lookup n.id d.nodes)) [
  | inl missing ↦ rw (missing, upsert_node) (lookup-insert_ne n.id id _ d.nodes apart)
  | inr (old, there) ↦ rw (there, upsert_node) (lookup-insert_ne n.id id _ d.nodes apart)
]

record_provisioned-get :
    {W : Type 0} (pool : CloudPool) (name new id : String) (now : Time) (d : Db)
    (r : Option ProvisionResult × W)
    → new ≢ id
    → get_node id (record_provisioned pool name new now d r).0 ≡ get_node id d
unfolding record_provisioned get_node provisioned_node
record_provisioned-get pool name new id now d (none, w) apart = refl
record_provisioned-get pool name new id now d (some result, w) apart =
    rw
      (upsert_cloud_pool-nodes (record pool { current_nodes = suc pool.current_nodes })
        (upsert_node (provisioned_node pool name new now result) d))
      (upsert_node-get_ne (provisioned_node pool name new now result) id d apart)

record_terminated-get :
    {W : Type 0} (pool : CloudPool) (node : Node) (id : String) (d : Db) (r : Bool × W)
    → node.id ≢ id
    → get_node id (record_terminated pool node d r).0 ≡ get_node id d
unfolding record_terminated get_node delete_node
record_terminated-get pool node id d (false, w) apart = refl
record_terminated-get pool node id d (true, w) apart =
    rw
      (upsert_cloud_pool-nodes (record pool { current_nodes = pool.current_nodes - 1 })
        (delete_node node.id d))
      (lookup-remove_ne node.id id d.nodes apart)

-- The target is one of the nodes.
first_empty-IsOnline :
    (d : Db) (provider : String) (ns : List Node) (n : Node)
    → All (IsOnline d) ns
    → first_empty provider ns ≡ some n
    → IsOnline d n
unfolding first_empty
first_empty-IsOnline d provider [] n ps h = absurd cc
first_empty-IsOnline d provider (m ∷ ms) n ps h =
    ground (arith, first_empty-IsOnline d provider ms n ps.1)

first_of-IsOnline :
    (d : Db) (provider : String) (ns : List Node) (n : Node)
    → All (IsOnline d) ns
    → first_of provider ns ≡ some n
    → IsOnline d n
unfolding first_of
first_of-IsOnline d provider [] n ps h = absurd cc
first_of-IsOnline d provider (m ∷ ms) n ps h =
    ground (arith, first_of-IsOnline d provider ms n ps.1)

pick_target-IsOnline :
    (d : Db) (provider : String) (ns : List Node) (n : Node)
    → All (IsOnline d) ns
    → pick_target provider ns ≡ some n
    → IsOnline d n
unfolding pick_target
pick_target-IsOnline d provider ns n ps h =
    ground (arith, first_empty-IsOnline d provider ns n ps, first_of-IsOnline d provider ns n ps)

-- The node is still there; at most its status is now "draining".
abbrev pub IsKept : String → Node → Db → Type 0
IsKept id n d = (get_node id d ≡ some n) ⊎ (get_node id d ≡ some (record n { status = draining }))

module _ {W : Type 0} (providers : Table String (CloudProvider W)) where
  terminate_node-get :
      (pool : CloudPool) (node : Node) (id : String) (d : Db) (w : W)
      → node.id ≢ id
      → get_node id (terminate_node providers pool node d w).0 ≡ get_node id d
  unfolding terminate_node
  terminate_node-get pool node id d w apart = elim (Option-cases (lookup node.provider providers)) [
    | inl missing ↦ rw (missing, terminate_node) refl
    | inr (provider, there) ↦
        rw (there, terminate_node)
          (record_terminated-get pool node id (update_node_status node.id terminating d)
              (provider.terminate_node node.provider_id w) apart
            ∙ update_node_status-get_ne node.id id terminating d apart)
  ]

  drain-IsKept :
      (pool : CloudPool) (id : String) (n : Node) (d : Db) (w : W) (target : Option Node)
      → ((m : Node) → target ≡ some m → get_node m.id d ≡ some m)
      → get_node id d ≡ some n
      → n.running ≢ 0
      → IsKept id n (drain providers pool d w target).0
  unfolding drain
  drain-IsKept pool id n d w none known there busy = inl there
  drain-IsKept pool id n d w (some m) known there busy = ground (
    arith,
    known m refl,
    string_comparable.same_iff m.id id,
    update_node_status-get_self id draining d n there,
    update_node_status-get_ne m.id id draining d,
    terminate_node-get pool m id (update_node_status m.id draining d) w,
  )

  scale_up-get :
      (pool : CloudPool) (name new id : String) (now : Time) (d : Db) (w : W)
      → new ≢ id
      → get_node id (scale_up providers pool name new now d w).0 ≡ get_node id d
  unfolding scale_up
  scale_up-get pool name new id now d w apart =
      elim (Option-cases (lookup pool.provider providers)) [
        | inl missing ↦ rw (missing, scale_up) refl
        | inr (provider, there) ↦
            rw (there, scale_up) (record_provisioned-get pool name new id now d _ apart)
      ]

  -- Where the nodes are stored under their ids and the id of a new node is not in use for it, no
  -- decision on a pool takes away a node that has running sandboxes: its row stays, and at most
  -- its status becomes draining.
  pub evaluate_pool-IsKept :
      (name new : String) (now : Time) (pool : CloudPool) (id : String) (n : Node) (d : Db) (w : W)
      → AreKeyed d
      → get_node id d ≡ some n
      → n.running ≢ 0
      → new ≢ id
      → IsKept id n (evaluate_pool providers name new now pool d w).0
  unfolding evaluate_pool scale_down
  evaluate_pool-IsKept name new now pool id n d w keyed there busy apart =
      let (total, used) = total_capacity d in
      let nodes = list_online_nodes d in
      let known : (m : Node) → pick_target pool.provider nodes ≡ some m → get_node m.id d ≡ some m =
        λ m e. (pick_target-IsOnline d pool.provider nodes m (list_online_nodes-All d keyed) e).0 in
      elim (Bool-cases (is_high total used && ltb pool.current_nodes pool.max_nodes)) [
        | inl high ↦
            rw (high, evaluate_pool) (inl (scale_up-get pool name new id now d w apart ∙ there))
        | inr other ↦
            elim (Bool-cases (is_low total used && ltb pool.min_nodes pool.current_nodes)) [
              | inl low ↦
                  rw (other, low, evaluate_pool)
                    (drain-IsKept pool id n d w (pick_target pool.provider nodes) known there busy)
              | inr neither ↦ rw (other, neither, evaluate_pool) (inl there)
            ]
      ]
