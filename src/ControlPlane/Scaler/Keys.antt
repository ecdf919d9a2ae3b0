-- ===== src/ControlPlane/Scaler/Keys.antt =====
-- The nodes table under the statements of controlplane/db.go and the scaler of controlplane/scaler.go.
use gitvm.Base.{
  string_comparable, ℕ, suc, ◌-◌, ◌≡◌, refl, String, Bool, true, false, Option, none, some, List,
  [], ◌∷◌, Bool-cases, Option-cases, inl, inr, ltb, if◌then◌else◌, ◌&&◌, arith,
}
use gitvm.Base.Clock.{Time}
use gitvm.Base.Table.{Table, lookup, insert, Every-insert, Every-remove, insert-IsMap, remove-IsMap}
use gitvm.ControlPlane.Types.{
  Node, NodeStatus, CloudPool, draining, terminating, offline, is_online,
}
use gitvm.ControlPlane.Db.{
  Db, upsert_node, merge_node, stored_node, update_node, update_node_status, update_node_heartbeat,
  delete_node, total_capacity, list_online_nodes, list_nodes, list_cloud_pools,
}
use gitvm.ControlPlane.Nodes.{AreKeyed}
use gitvm.ControlPlane.Scaler.{
  CloudProvider, ProvisionResult, is_high, is_low, provisioned_node, pick_target,
  record_provisioned, record_terminated, scale_up, terminate_node, drain, scale_down, evaluate_pool,
  mark_offline, detect_offline_nodes, evaluate_pools, evaluate,
}
use gitvm.ControlPlane.Scaler.Busy.{upsert_cloud_pool-nodes}

pub same_nodes : (d d' : Db) → d'.nodes ≡ d.nodes → AreKeyed d → AreKeyed d'
same_nodes d d' e v = record { map = rw e v.map; each = rw e v.each }

insert-AreKeyed :
    (k : String) (n : Node) (d : Db)
    → n.id ≡ k
    → AreKeyed d
    → AreKeyed (record d { nodes = insert k n d.nodes })
insert-AreKeyed k n d e v = record {
  map = insert-IsMap k n d.nodes v.map;
  each = Every-insert (λ id (m : Node). m.id ≡ id) k n d.nodes e v.each;
}

pub upsert_node-AreKeyed : (n : Node) (d : Db) → AreKeyed d → AreKeyed (upsert_node n d)
unfolding upsert_node merge_node stored_node
upsert_node-AreKeyed n d v = elim (Option-cases (lookup n.id d.nodes)) [
  | inl missing ↦ rw (missing, upsert_node) (insert-AreKeyed n.id (stored_node n) d refl v)
  | inr (old, there) ↦
      rw (there, upsert_node)
        (insert-AreKeyed n.id (merge_node old (stored_node n)) d (v.each n.id old there) v)
]

update_node-AreKeyed :
    (id : String) (f : Node → Node) (d : Db)
    → ((n : Node) → (f n).id ≡ n.id)
    → AreKeyed d
    → AreKeyed (update_node id f d)
unfolding update_node
update_node-AreKeyed id f d keeps v = elim (Option-cases (lookup id d.nodes)) [
  | inl missing ↦ rw (missing, update_node) v
  | inr (n, there) ↦
      rw (there, update_node)
        (insert-AreKeyed id (f n) d (ground (arith, keeps n, v.each id n there)) v)
]

update_node_status-AreKeyed :
    (id : String) (s : NodeStatus) (d : Db) → AreKeyed d → AreKeyed (update_node_status id s d)
unfolding update_node_status
update_node_status-AreKeyed id s d v = update_node-AreKeyed id _ d (λ n. refl) v

pub update_node_heartbeat-AreKeyed :
    (id : String) (running : ℕ) (now : Time) (d : Db)
    → AreKeyed d
    → AreKeyed (update_node_heartbeat id running now d)
unfolding update_node_heartbeat
update_node_heartbeat-AreKeyed id running now d v = update_node-AreKeyed id _ d (λ n. refl) v

delete_node-AreKeyed : (id : String) (d : Db) → AreKeyed d → AreKeyed (delete_node id d)
unfolding delete_node
delete_node-AreKeyed id d v = record {
  map = remove-IsMap id d.nodes v.map;
  each = Every-remove (λ k (m : Node). m.id ≡ k) id d.nodes v.each;
}

record_provisioned-AreKeyed :
    {W : Type 0} (pool : CloudPool) (name id : String) (now : Time) (d : Db)
    (r : Option ProvisionResult × W)
    → AreKeyed d
    → AreKeyed (record_provisioned pool name id now d r).0
unfolding record_provisioned
record_provisioned-AreKeyed pool name id now d (none, w) v = v
record_provisioned-AreKeyed pool name id now d (some result, w) v =
    same_nodes (upsert_node (provisioned_node pool name id now result) d) _
      (upsert_cloud_pool-nodes (record pool { current_nodes = suc pool.current_nodes }) _)
      (upsert_node-AreKeyed (provisioned_node pool name id now result) d v)

record_terminated-AreKeyed :
    {W : Type 0} (pool : CloudPool) (node : Node) (d : Db) (r : Bool × W)
    → AreKeyed d
    → AreKeyed (record_terminated pool node d r).0
unfolding record_terminated
record_terminated-AreKeyed pool node d (false, w) v = v
record_terminated-AreKeyed pool node d (true, w) v =
    same_nodes (delete_node node.id d) _
      (upsert_cloud_pool-nodes (record pool { current_nodes = pool.current_nodes - 1 }) _)
      (delete_node-AreKeyed node.id d v)

if_keyed : (b : Bool) (d d' : Db) → AreKeyed d → AreKeyed d' → AreKeyed (if b then d else d')
if_keyed true d d' v v' = v
if_keyed false d d' v v' = v'

mark_offline-AreKeyed :
    (now : Time) (ns : List Node) (d : Db) → AreKeyed d → AreKeyed (mark_offline now ns d)
unfolding mark_offline
mark_offline-AreKeyed now [] d v = v
mark_offline-AreKeyed now (n ∷ ns) d v = mark_offline-AreKeyed now ns _ (
    if_keyed (is_online n.status && ltb n.last_seen (now - 120000000000)) _ d
      (update_node_status-AreKeyed n.id offline d v) v)

module _ {W : Type 0} (providers : Table String (CloudProvider W)) where
  terminate_node-AreKeyed :
      (pool : CloudPool) (node : Node) (d : Db) (w : W)
      → AreKeyed d
      → AreKeyed (terminate_node providers pool node d w).0
  unfolding terminate_node
  terminate_node-AreKeyed pool node d w v = elim (Option-cases (lookup node.provider providers)) [
    | inl missing ↦ rw (missing, terminate_node) v
    | inr (provider, there) ↦
        rw (there, terminate_node)
          (record_terminated-AreKeyed pool node (update_node_status node.id terminating d)
            (provider.terminate_node node.provider_id w)
            (update_node_status-AreKeyed node.id terminating d v))
  ]

  drain-AreKeyed :
      (pool : CloudPool) (d : Db) (w : W) (target : Option Node)
      → AreKeyed d
      → AreKeyed (drain providers pool d w target).0
  unfolding drain
  drain-AreKeyed pool d w none v = v
  drain-AreKeyed pool d w (some n) v =
      let v' = update_node_status-AreKeyed n.id draining d v in
      ground (arith, v', terminate_node-AreKeyed pool n (update_node_status n.id draining d) w v')

  scale_up-AreKeyed :
      (pool : CloudPool) (name id : String) (now : Time) (d : Db) (w : W)
      → AreKeyed d
      → AreKeyed (scale_up providers pool name id now d w).0
  unfolding scale_up
  scale_up-AreKeyed pool name id now d w v = elim (Option-cases (lookup pool.provider providers)) [
    | inl missing ↦ rw (missing, scale_up) v
    | inr (provider, there) ↦
        rw (there, scale_up) (record_provisioned-AreKeyed pool name id now d _ v)
  ]

  pub evaluate_pool-AreKeyed :
      (name id : String) (now : Time) (pool : CloudPool) (d : Db) (w : W)
      → AreKeyed d
      → AreKeyed (evaluate_pool providers name id now pool d w).0
  unfolding evaluate_pool scale_down
  evaluate_pool-AreKeyed name id now pool d w v =
      let (total, used) = total_capacity d in
      elim (Bool-cases (is_high total used && ltb pool.current_nodes pool.max_nodes)) [
        | inl high ↦ rw (high, evaluate_pool) (scale_up-AreKeyed pool name id now d w v)
        | inr other ↦
            elim (Bool-cases (is_low total used && ltb pool.min_nodes pool.current_nodes)) [
              | inl low ↦
                  rw (other, low, evaluate_pool)
                    (drain-AreKeyed pool d w (pick_target pool.provider (list_online_nodes d)) v)
              | inr neither ↦ rw (other, neither, evaluate_pool) v
            ]
      ]

  evaluate_pools-AreKeyed :
      (fresh : ℕ → String × String) (i : ℕ) (now : Time) (pools : List CloudPool) (d : Db) (w : W)
      → AreKeyed d
      → AreKeyed (evaluate_pools providers fresh i now pools d w).0
  unfolding evaluate_pools
  evaluate_pools-AreKeyed fresh i now [] d w v = v
  evaluate_pools-AreKeyed fresh i now (pool ∷ pools) d w v =
      let (d', w') = evaluate_pool providers (fresh i).0 (fresh i).1 now pool d w in
      evaluate_pools-AreKeyed fresh (suc i) now pools d' w'
        (evaluate_pool-AreKeyed (fresh i).0 (fresh i).1 now pool d w v)

  pub evaluate-AreKeyed :
      (fresh : ℕ → String × String) (now : Time) (d : Db) (w : W)
      → AreKeyed d
      → AreKeyed (evaluate providers fresh now d w).0
  unfolding evaluate detect_offline_nodes
  evaluate-AreKeyed fresh now d w v =
      let d' = (evaluate_pools providers fresh 0 now (list_cloud_pools d) d w).0 in
      mark_offline-AreKeyed now (list_nodes d') d'
        (evaluate_pools-AreKeyed fresh 0 now (list_cloud_pools d) d w v)
