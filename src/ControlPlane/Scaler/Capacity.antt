-- ===== src/ControlPlane/Scaler/Capacity.antt =====
-- The bound on the size of a pool: controlplane/scaler.go over the cloud_pools table.
use gitvm.Base.{
  ℕ, suc, ◌-◌, ◌≤◌, ◌≡◌, refl, String, Bool, true, false, Option, none, some, List, [], ◌∷◌, arith,
  Bool-cases, Option-cases, inl, inr, string_comparable, ltb, if◌then◌else◌, ◌&&◌,
}
use gitvm.Base.Clock.{Time}
use gitvm.Base.Table.{
  Table, lookup, values, IsMap, Every, Every-insert, Every-tail, Every-head, insert-IsMap,
}
use gitvm.ControlPlane.Types.{Node, CloudPool, NodeStatus, is_online}
use gitvm.ControlPlane.Db.{
  Db, upsert_node, upsert_cloud_pool, merge_cloud_pool, list_cloud_pools, update_node,
  update_node_status, delete_node, total_capacity, list_online_nodes, list_nodes,
}
use gitvm.ControlPlane.Types.{draining, terminating, offline}
use gitvm.ControlPlane.Scaler.{
  CloudProvider, ProvisionResult, is_high, is_low, provisioned_node, pick_target,
  record_provisioned, record_terminated, scale_up, terminate_node, drain, scale_down, evaluate_pool,
  mark_offline, detect_offline_nodes, evaluate_pools, evaluate,
}

-- A pool is stored under its id, and is not larger than its maximum.
abbrev pub IsBounded : String → CloudPool → Type 0
IsBounded id pool = (pool.id ≡ id) × (pool.current_nodes ≤ pool.max_nodes)

pub record AreBounded (d : Db) : Type 0 where
  pub map : IsMap d.cloud_pools
  pub each : Every IsBounded d.cloud_pools

pub same_pools : (d d' : Db) → d'.cloud_pools ≡ d.cloud_pools → AreBounded d → AreBounded d'
same_pools d d' e v = record { map = rw e v.map; each = rw e v.each }

upsert-AreBounded :
    (pool : CloudPool) (d : Db)
    → pool.current_nodes ≤ pool.max_nodes
    → AreBounded d
    → AreBounded (upsert_cloud_pool pool d)
unfolding upsert_cloud_pool merge_cloud_pool
upsert-AreBounded pool d small v = elim (Option-cases (lookup pool.id d.cloud_pools)) [
  | inl missing ↦
      rw (missing, upsert_cloud_pool)
        (record {
          map = insert-IsMap pool.id _ d.cloud_pools v.map;
          each = Every-insert IsBounded pool.id _ d.cloud_pools (refl, small) v.each;
        })
  | inr (old, there) ↦
      rw (there, upsert_cloud_pool)
        (record {
          map = insert-IsMap pool.id _ d.cloud_pools v.map;
          each =
              Every-insert IsBounded pool.id _ d.cloud_pools ((v.each pool.id old there).0, small)
                v.each;
        })
]

upsert_node-pools : (n : Node) (d : Db) → (upsert_node n d).cloud_pools ≡ d.cloud_pools
unfolding upsert_node
upsert_node-pools n d = ground arith

update_node_status-pools :
    (id : String) (s : NodeStatus) (d : Db)
    → (update_node_status id s d).cloud_pools ≡ d.cloud_pools
unfolding update_node_status update_node
update_node_status-pools id s d = ground arith

delete_node-pools : (id : String) (d : Db) → (delete_node id d).cloud_pools ≡ d.cloud_pools
unfolding delete_node
delete_node-pools id d = refl

record_provisioned-AreBounded :
    {W : Type 0} (pool : CloudPool) (name id : String) (now : Time) (d : Db)
    (r : Option ProvisionResult × W)
    → suc pool.current_nodes ≤ pool.max_nodes
    → AreBounded d
    → AreBounded (record_provisioned pool name id now d r).0
unfolding record_provisioned
record_provisioned-AreBounded pool name id now d (none, w) room v = v
record_provisioned-AreBounded pool name id now d (some result, w) room v =
    upsert-AreBounded (record pool { current_nodes = suc pool.current_nodes }) _ room
      (same_pools d _ (upsert_node-pools (provisioned_node pool name id now result) d) v)

record_terminated-AreBounded :
    {W : Type 0} (pool : CloudPool) (node : Node) (d : Db) (r : Bool × W)
    → pool.current_nodes ≤ pool.max_nodes
    → AreBounded d
    → AreBounded (record_terminated pool node d r).0
unfolding record_terminated
record_terminated-AreBounded pool node d (false, w) small v = v
record_terminated-AreBounded pool node d (true, w) small v =
    upsert-AreBounded (record pool { current_nodes = pool.current_nodes - 1 }) _ (omega arith)
      (same_pools d _ (delete_node-pools node.id d) v)

if_lem : (b : Bool) (d d' : Db) → AreBounded d → AreBounded d' → AreBounded (if b then d else d')
if_lem true d d' v v' = v
if_lem false d d' v v' = v'

module _ {W : Type 0} (providers : Table String (CloudProvider W)) where
  terminate_node-AreBounded :
      (pool : CloudPool) (node : Node) (d : Db) (w : W)
      → pool.current_nodes ≤ pool.max_nodes
      → AreBounded d
      → AreBounded (terminate_node providers pool node d w).0
  unfolding terminate_node
  terminate_node-AreBounded pool node d w small v =
      elim (Option-cases (lookup node.provider providers)) [
        | inl missing ↦ rw (missing, terminate_node) v
        | inr (provider, there) ↦
            rw (there, terminate_node)
              (record_terminated-AreBounded pool node (update_node_status node.id terminating d)
                (provider.terminate_node node.provider_id w) small
                (same_pools d _ (update_node_status-pools node.id terminating d) v))
      ]

  drain-AreBounded :
      (pool : CloudPool) (d : Db) (w : W) (target : Option Node)
      → pool.current_nodes ≤ pool.max_nodes
      → AreBounded d
      → AreBounded (drain providers pool d w target).0
  unfolding drain
  drain-AreBounded pool d w none small v = v
  drain-AreBounded pool d w (some n) small v =
      let v' =
        same_pools d (update_node_status n.id draining d) (update_node_status-pools n.id draining d)
          v in
      ground (
        arith,
        v',
        terminate_node-AreBounded pool n (update_node_status n.id draining d) w small v',
      )

  scale_up-AreBounded :
      (pool : CloudPool) (name id : String) (now : Time) (d : Db) (w : W)
      → suc pool.current_nodes ≤ pool.max_nodes
      → AreBounded d
      → AreBounded (scale_up providers pool name id now d w).0
  unfolding scale_up
  scale_up-AreBounded pool name id now d w room v =
      elim (Option-cases (lookup pool.provider providers)) [
        | inl missing ↦ rw (missing, scale_up) v
        | inr (provider, there) ↦
            rw (there, scale_up) (record_provisioned-AreBounded pool name id now d _ room v)
      ]

  evaluate_pool-AreBounded :
      (name id : String) (now : Time) (pool : CloudPool) (d : Db) (w : W)
      → pool.current_nodes ≤ pool.max_nodes
      → AreBounded d
      → AreBounded (evaluate_pool providers name id now pool d w).0
  unfolding evaluate_pool scale_down
  evaluate_pool-AreBounded name id now pool d w small v =
      let (total, used) = total_capacity d in
      elim (Bool-cases (is_high total used && ltb pool.current_nodes pool.max_nodes)) [
        | inl high ↦
            rw (high, evaluate_pool) (scale_up-AreBounded pool name id now d w (ground arith) v)
        | inr other ↦
            elim (Bool-cases (is_low total used && ltb pool.min_nodes pool.current_nodes)) [
              | inl low ↦
                  rw (other, low, evaluate_pool)
                    (drain-AreBounded pool d w (pick_target pool.provider (list_online_nodes d))
                      small v)
              | inr neither ↦ rw (other, neither, evaluate_pool) v
            ]
      ]

  evaluate_pools-AreBounded :
      (fresh : ℕ → String × String) (i : ℕ) (now : Time) (m : Table String CloudPool) (d : Db)
      (w : W)
      → IsMap m
      → Every IsBounded m
      → AreBounded d
      → AreBounded (evaluate_pools providers fresh i now (values m) d w).0
  unfolding evaluate_pools values
  evaluate_pools-AreBounded fresh i now [] d w map each v = v
  evaluate_pools-AreBounded fresh i now ((id, pool) ∷ m) d w map each v =
      let (d', w') = evaluate_pool providers (fresh i).0 (fresh i).1 now pool d w in
      evaluate_pools-AreBounded fresh (suc i) now m d' w' map.1
        (Every-tail IsBounded id pool m map.0 each)
        (evaluate_pool-AreBounded (fresh i).0 (fresh i).1 now pool d w
          (Every-head IsBounded id pool m each).1 v)

  mark_offline-AreBounded :
      (now : Time) (ns : List Node) (d : Db) → AreBounded d → AreBounded (mark_offline now ns d)
  unfolding mark_offline
  mark_offline-AreBounded now [] d v = v
  mark_offline-AreBounded now (n ∷ ns) d v = mark_offline-AreBounded now ns _ (
      if_lem (is_online n.status && ltb n.last_seen (now - 120000000000)) _ d
        (same_pools d _ (update_node_status-pools n.id offline d) v) v)

  -- Where each pool is stored under its id and within its maximum, a round of the scaler keeps it
  -- so, whatever the cloud answers.
  pub evaluate-AreBounded :
      (fresh : ℕ → String × String) (now : Time) (d : Db) (w : W)
      → AreBounded d
      → AreBounded (evaluate providers fresh now d w).0
  unfolding evaluate detect_offline_nodes list_cloud_pools
  evaluate-AreBounded fresh now d w v =
      let d' = (evaluate_pools providers fresh 0 now (list_cloud_pools d) d w).0 in
      mark_offline-AreBounded now (list_nodes d') d'
        (evaluate_pools-AreBounded fresh 0 now d.cloud_pools d w v.map v.each v)
