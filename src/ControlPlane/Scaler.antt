-- ===== src/ControlPlane/Scaler.antt =====
-- controlplane/scaler.go over the providers of controlplane/cloud.go. A cloud is a parameter; its
-- state is `W`. A random name or id and the time that is read are arguments.
pub mod Capacity
pub mod Busy
pub mod Keys
pub mod Offline
pub mod Draining
use gitvm.Base.{
  ℕ, suc, ◌+◌, ◌-◌, ◌*◌, String, Bool, true, false, Option, none, some, List, [], ◌∷◌, ltb, nat_beq,
  if◌then◌else◌, ◌==◌, string_comparable, concat, ◌&&◌, ◌||◌,
}
use gitvm.Base.Clock.{Time}
use gitvm.Base.Table.{Table, lookup}
use gitvm.ControlPlane.Types.{
  Node, CloudPool, provisioning, draining, offline, terminating, is_online,
}
use gitvm.ControlPlane.Db.{
  Db, upsert_node, upsert_cloud_pool, list_cloud_pools, total_capacity, list_online_nodes,
  list_nodes, update_node_status, delete_node,
}

-- The start script and the tags are built from these and are not kept.
pub record ProvisionOpts : Type 0 where
  pub name : String
  pub region : String
  pub instance_type : String
  pub runtime : String

pub record ProvisionResult : Type 0 where
  pub provider_id : String
  pub public_ip : String
  pub private_ip : String
  pub region : String
  pub instance_type : String

-- `CloudProvider`: `none` and `false` for an error.
pub record CloudProvider (W : Type 0) : Type 0 where
  pub provision_node : ProvisionOpts → W → Option ProvisionResult × W
  pub terminate_node : String → W → Bool × W

-- `used / total > 0.8` and `used / total < 0.3`, and 0 for `used / total` where there is no capacity.
-- The program divides in float64, which decides as the fractions do for totals below 2 ^ 50.
unfoldable pub is_high : ℕ → ℕ → Bool
is_high total used = ltb 0 total && ltb (4 * total) (5 * used)

unfoldable pub is_low : ℕ → ℕ → Bool
is_low total used = nat_beq total 0 || ltb (10 * used) (3 * total)

abbrev pub runtime_or_firecracker : String → String
runtime_or_firecracker runtime = if runtime == "" then "firecracker" else runtime

unfoldable pub provisioned_node : CloudPool → String → String → Time → ProvisionResult → Node
provisioned_node pool name id now result = record {
  id = id;
  name = name;
  address = concat "http://" (concat result.public_ip ":9090");
  public_ip = result.public_ip;
  provider = pool.provider;
  provider_id = result.provider_id;
  region = result.region;
  instance_type = result.instance_type;
  status = provisioning;
  max_sandboxes = 50;
  running = 0;
  last_seen = now;
  created_at = now;
}

-- `nodes[i].Provider == pool.Provider && nodes[i].Running == 0`, the first one
unfoldable pub first_empty : String → List Node → Option Node
first_empty provider [] = none
first_empty provider (n ∷ ns) =
    let rest = first_empty provider ns in
    if n.provider == provider && nat_beq n.running 0 then some n else rest

unfoldable pub first_of : String → List Node → Option Node
first_of provider [] = none
first_of provider (n ∷ ns) =
    let rest = first_of provider ns in if n.provider == provider then some n else rest

-- The target of `scaleDown`: an empty node, or else the least loaded one.
unfoldable pub pick_target : String → List Node → Option Node
unfolding first_empty first_of
pick_target provider ns = elim (first_empty provider ns) [
  | some n ↦ some n
  | none ↦ first_of provider ns
]

-- The writes of `scaleUp` and of `terminateNode` behind the call of the cloud.
unfoldable pub record_provisioned :
    {W : Type 0} → CloudPool → String → String → Time → Db → Option ProvisionResult × W → Db × W
unfolding provisioned_node upsert_node upsert_cloud_pool
record_provisioned pool name id now d (none, w) = (d, w)
record_provisioned pool name id now d (some result, w) = (
  upsert_cloud_pool (record pool { current_nodes = suc pool.current_nodes })
      (upsert_node (provisioned_node pool name id now result) d),
  w,
)

-- `pool.CurrentNodes--`, and 0 where that is negative
unfoldable pub record_terminated : {W : Type 0} → CloudPool → Node → Db → Bool × W → Db × W
unfolding delete_node upsert_cloud_pool
record_terminated pool node d (false, w) = (d, w)
record_terminated pool node d (true, w) = (
  upsert_cloud_pool (record pool { current_nodes = pool.current_nodes - 1 })
      (delete_node node.id d),
  w,
)

-- `detectOfflineNodes`: two minutes before `now`
unfoldable pub mark_offline : Time → List Node → Db → Db
mark_offline now [] d = d
mark_offline now (n ∷ ns) d = mark_offline now ns (
    if is_online n.status && ltb n.last_seen (now - 120000000000)
    then update_node_status n.id offline d
    else d)

unfoldable pub detect_offline_nodes : Time → Db → Db
unfolding mark_offline update_node_status
detect_offline_nodes now d = mark_offline now (list_nodes d) d

module _ {W : Type 0} (providers : Table String (CloudProvider W)) where
  unfoldable pub scale_up : CloudPool → String → String → Time → Db → W → Db × W
  unfolding record_provisioned
  scale_up pool name id now d w = elim (lookup pool.provider providers) [
    | none ↦ (d, w)
    | some provider ↦
        let opts : ProvisionOpts = record {
          name = name;
          region = pool.region;
          instance_type = pool.instance_type;
          runtime = runtime_or_firecracker pool.runtime;
        } in
        record_provisioned pool name id now d (provider.provision_node opts w)
  ]

  unfoldable pub terminate_node : CloudPool → Node → Db → W → Db × W
  unfolding record_terminated update_node_status
  terminate_node pool node d w = elim (lookup node.provider providers) [
    | none ↦ (d, w)
    | some provider ↦
        record_terminated pool node (update_node_status node.id terminating d)
          (provider.terminate_node node.provider_id w)
  ]

  unfoldable pub drain : CloudPool → Db → W → Option Node → Db × W
  unfolding terminate_node update_node_status
  drain pool d w none = (d, w)
  drain pool d w (some target) =
      let d₁ = update_node_status target.id draining d in
      if nat_beq target.running 0 then terminate_node pool target d₁ w else (d₁, w)

  unfoldable pub scale_down : CloudPool → Db → W → Db × W
  unfolding drain pick_target
  scale_down pool d w = drain pool d w (pick_target pool.provider (list_online_nodes d))

  unfoldable pub evaluate_pool : String → String → Time → CloudPool → Db → W → Db × W
  unfolding scale_up scale_down is_high is_low
  evaluate_pool name id now pool d w =
      let (total, used) = total_capacity d in
      if is_high total used && ltb pool.current_nodes pool.max_nodes
      then scale_up pool name id now d w
      else if is_low total used && ltb pool.min_nodes pool.current_nodes
      then scale_down pool d w
      else (d, w)

  -- The loop of `evaluate`: the pool in round `i` takes the name and the id `fresh i`.
  unfoldable pub evaluate_pools :
      (ℕ → String × String) → ℕ → Time → List CloudPool → Db → W → Db × W
  unfolding evaluate_pool
  evaluate_pools fresh i now [] d w = (d, w)
  evaluate_pools fresh i now (pool ∷ pools) d w =
      let (name, id) = fresh i in
      let (d', w') = evaluate_pool name id now pool d w in
      evaluate_pools fresh (suc i) now pools d' w'

  unfoldable pub evaluate : (ℕ → String × String) → Time → Db → W → Db × W
  unfolding evaluate_pools detect_offline_nodes
  evaluate fresh now d w =
      let (d', w') = evaluate_pools fresh 0 now (list_cloud_pools d) d w in
      (detect_offline_nodes now d', w')
