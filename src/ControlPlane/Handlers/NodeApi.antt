-- ===== src/ControlPlane/Handlers/NodeApi.antt =====
-- controlplane/handlers.go: registering, heartbeats and provisioning of nodes, and the health page.
use gitvm.Base.{
  ℕ, suc, String, Option, none, some, List, [], ◌∷◌, ltb, concat, if◌then◌else◌, ◌==◌,
  string_comparable,
}
use Prim.Native.String.{len, slice}
use text.Mathlib.Text.{starts_with, find?}
use gitvm.Base.Clock.{Time}
use gitvm.Base.Table.{Table, lookup}
use gitvm.Http.{Response, respond}
use gitvm.ControlPlane.Types.{Node, online, provisioning}
use gitvm.ControlPlane.Db.{Db, list_nodes, update_node_heartbeat, upsert_node, total_capacity}
use gitvm.ControlPlane.Scaler.{CloudProvider, ProvisionOpts, ProvisionResult}
use gitvm.ControlPlane.Handlers.{
  Body, bad_request, registered, ok_status, nodes, provider_not_found, provision_failed,
  provisioned, health,
}

pub record NodeRegisterRequest : Type 0 where
  pub name : String
  pub address : String
  pub max_sandboxes : ℕ
  pub region : String

-- `strings.TrimPrefix`
abbrev pub trim_prefix : String → String → String
trim_prefix s prefix = if starts_with s prefix then slice s (len prefix) (len s) else s

-- `extractIP`
unfoldable pub extract_ip : String → String
extract_ip address =
    let addr = trim_prefix (trim_prefix address "http://") "https://" in
    elim (find? addr ":") [ none ↦ addr | some idx ↦ if ltb 0 idx then slice addr 0 idx else addr ]

unfoldable pub registered_node : NodeRegisterRequest → String → Time → Node
unfolding extract_ip
registered_node req id now = record {
  id = id;
  name = req.name;
  address = req.address;
  public_ip = extract_ip req.address;
  provider = "custom";
  provider_id = "";
  region = req.region;
  instance_type = "";
  status = online;
  max_sandboxes = req.max_sandboxes;
  running = 0;
  last_seen = now;
  created_at = now;
}

unfoldable pub handle_node_register :
    Option NodeRegisterRequest → String → Time → Db → Response Body × Db
unfolding upsert_node registered_node
handle_node_register none uuid now d = (respond 400 bad_request, d)
handle_node_register (some req) uuid now d =
    (respond 200 (registered uuid), upsert_node (registered_node req uuid now) d)

-- The count is an `int` in the source, here a natural number: a node sends that of its sandboxes.
unfoldable pub handle_node_heartbeat : String → Option ℕ → Time → Db → Response Body × Db
unfolding update_node_heartbeat
handle_node_heartbeat id none now d = (respond 400 bad_request, d)
handle_node_heartbeat id (some count) now d =
    (respond 200 ok_status, update_node_heartbeat id count now d)

unfoldable pub handle_list_nodes : Db → Response Body
handle_list_nodes d = respond 200 (nodes (list_nodes d))

abbrev pub or_text : String → String → String
or_text default s = if s == "" then default else s

pub record ProvisionNodeRequest : Type 0 where
  pub provider : String
  pub region : String
  pub instance_type : String
  pub runtime : String
  pub name : String

-- The texts that a request leaves out; `uuid` is the random part of a name.
unfoldable pub with_defaults : ProvisionNodeRequest → String → ProvisionNodeRequest
with_defaults req uuid = record req {
  provider = or_text "aws" req.provider;
  runtime = or_text "docker" req.runtime;
  name = or_text (concat "gitvm-node-" uuid) req.name;
}

unfoldable pub requested_node : ProvisionNodeRequest → String → Time → ProvisionResult → Node
requested_node req id now result = record {
  id = id;
  name = req.name;
  address = concat "http://" (concat result.public_ip ":9090");
  public_ip = result.public_ip;
  provider = req.provider;
  provider_id = result.provider_id;
  region = result.region;
  instance_type = result.instance_type;
  status = provisioning;
  max_sandboxes = 50;
  running = 0;
  last_seen = now;
  created_at = now;
}

-- The part behind the call of the cloud.
unfoldable pub record_requested :
    {W : Type 0}
    → ProvisionNodeRequest
    → String
    → Time
    → Db
    → Option ProvisionResult × W
    → Response Body × Db × W
unfolding requested_node upsert_node
record_requested req id now d (none, w) = (respond 500 provision_failed, d, w)
record_requested req id now d (some result, w) =
    let node = requested_node req id now result in
    (respond 200 (provisioned node), upsert_node node d, w)

unfoldable pub provision :
    {W : Type 0}
    → Table String (CloudProvider W)
    → ProvisionNodeRequest
    → String
    → Time
    → Db
    → W
    → Response Body × Db × W
unfolding record_requested
provision providers req id now d w = elim (lookup req.provider providers) [
  | none ↦ (respond 400 (provider_not_found req.provider), d, w)
  | some provider ↦
      let opts : ProvisionOpts = record {
        name = req.name;
        region = req.region;
        instance_type = req.instance_type;
        runtime = req.runtime;
      } in
      record_requested req id now d (provider.provision_node opts w)
]

unfoldable pub handle_provision_node :
    {W : Type 0}
    → Table String (CloudProvider W)
    → Option ProvisionNodeRequest
    → String
    → String
    → Time
    → Db
    → W
    → Response Body × Db × W
unfolding provision with_defaults
handle_provision_node providers none uuid id now d w = (respond 400 bad_request, d, w)
handle_provision_node providers (some req) uuid id now d w =
    provision providers (with_defaults req uuid) id now d w

abbrev count_nodes : List Node → ℕ
count_nodes [] = 0
count_nodes (_ ∷ ns) = suc (count_nodes ns)

-- The number of nodes, and of sandboxes on the online ones.
unfoldable pub handle_health : Db → Response Body
handle_health d = respond 200 (health (count_nodes (list_nodes d)) (total_capacity d).1)
