-- ===== src/ControlPlane/Tests.antt =====
-- A control plane with two nodes, a pool and a user, for the tests.
mod Accounts
mod Scaling
mod Serving
use gitvm.Base.{
  ℕ, ◌≡◌, ◌≢◌, refl, String, true, false, Option, none, some, List, [], ◌∷◌, pos, concat, arith,
  string_comparable, if◌then◌else◌, ◌==◌,
}
use gitvm.Base.Table.{Table, lookup, insert, remove, values}
use gitvm.Http.{respond}
use gitvm.Runtime.{State}
use gitvm.ControlPlane.Types.{
  Node, NodeStatus, online, draining, offline, Project, CloudPool, CreateSandboxRequest, Sandbox,
}
use gitvm.ControlPlane.Db.{
  Db, get_node, get_sandbox, create_user, create_project, find_by, get_user_by_email, get_user,
  stored_sandbox, stored_time, list_online_nodes,
}
use gitvm.ControlPlane.Nodes.{AreKeyed, IsOnline}
use gitvm.ControlPlane.Auth.{
  Request, anonymous, of_project, of_user, granted, authentication_required, Sessions,
  create_session, delete_session, get_session, is_public_path, by_session, authorize, Credentials,
  registered, logged_in, invalid_credentials, with_project, handle_register, handle_login,
  handle_logout,
}
use gitvm.ControlPlane.Auth.Decisions.{IsDecision, authorize-IsDecision, authorize_internal}
use gitvm.ControlPlane.Auth.Accounts.{
  IsUnique, login-register, register-logout, handle_register-IsUnique,
}
use gitvm.ControlPlane.Scaler.{CloudProvider, drain, evaluate, evaluate_pool, detect_offline_nodes}
use gitvm.ControlPlane.Scaler.Capacity.{AreBounded, evaluate-AreBounded}
use gitvm.ControlPlane.Scaler.Busy.{IsKept, evaluate_pool-IsKept}
use gitvm.ControlPlane.Scaler.Draining.{handle_node_heartbeat-drain}
use gitvm.ControlPlane.Scaler.Offline.{detect_offline_nodes-get}
use gitvm.ControlPlane.Handlers.NodeApi.{handle_node_heartbeat}
use gitvm.ControlPlane.Handlers.{
  NodeRequest, NodeAnswer, sandbox_id, new_sandbox, create_on, handle_create_sandbox,
  handle_delete_sandbox,
}
use gitvm.ControlPlane.Histories.{beats, scales, deletes, run_all}
use gitvm.ControlPlane.Histories.Sound.{run_all-AreKeyed}
use gitvm.ControlPlane.Handlers.Placement.{IsPick}
use gitvm.ControlPlane.Handlers.Guarantees.{IsPlaced, create_on-get, handle_delete_sandbox-get}

abbrev a_node : String → NodeStatus → ℕ → Node
a_node id status running = record {
  id = id;
  name = id;
  address = "http://10.1.0.7:9090";
  public_ip = "10.1.0.7";
  provider = "aws";
  provider_id = concat "i-" id;
  region = "us-east-1";
  instance_type = "m5.metal";
  status = status;
  max_sandboxes = 50;
  running = running;
  last_seen = 1000000000;
  created_at = 1000000000;
}

abbrev a_pool : CloudPool
a_pool = record {
  id = "pool";
  name = "pool";
  provider = "aws";
  region = "us-east-1";
  instance_type = "m5.metal";
  runtime = "";
  min_nodes = 0;
  max_nodes = 2;
  current_nodes = 2;
}

abbrev a_sandbox : Sandbox
a_sandbox = record {
  id = "sb-1";
  project_id = "p";
  node_id = "busy";
  template = "base";
  status = State.running;
  vcpus = 1;
  memory_mb = 512;
  host_ip = "10.1.0.7";
  timeout_sec = 300;
  created_at = 0;
  expires_at = 300000000000;
}

abbrev a_db : Db
a_db = record {
  users = [];
  projects = [];
  nodes = ("busy", a_node "busy" online 3) ∷ ("idle", a_node "idle" draining 0) ∷ [];
  sandboxes = ("sb-1", a_sandbox) ∷ [];
  cloud_pools = ("pool", a_pool) ∷ [];
}

abbrev hash : String → String
hash = concat "sha256 "

abbrev ada : Credentials
ada = record { email = "ada@example.org"; password = "secret" }

abbrev a_request : String → Request
a_request path = record { path = path; node_key = ""; api_key = ""; session_cookie = some "token" }

control_plane : Unit {0}
unfolding handle_register with_project create_user create_project get_user_by_email get_user find_by
    create_session delete_session get_session is_public_path by_session authorize get_node
    get_sandbox lookup insert remove values
control_plane = tt

abbrev ada_db : Db
ada_db = (handle_register hash (some ada) "u" "p" "gvm_1" "token" a_db []).1

abbrev ada_sessions : Sessions
ada_sessions = (handle_register hash (some ada) "u" "p" "gvm_1" "token" a_db []).2

a_db-AreKeyed : AreKeyed a_db
unfolding control_plane
a_db-AreKeyed = record {
  map = (refl, (refl, tt));
  each = λ k n found.
      ground (arith, string_comparable.same_iff "busy" k, string_comparable.same_iff "idle" k);
}

a_db-AreBounded : AreBounded a_db
unfolding control_plane
a_db-AreBounded = record {
  map = (refl, tt);
  each = λ k p found. ground (arith, string_comparable.same_iff "pool" k);
}

-- The cloud gives each new node the same address, and cannot end a node.
abbrev cloud : CloudProvider (List String)
cloud = record {
  provision_node = λ opts w. (
    some (record {
      provider_id = concat "i-" opts.name;
      public_ip = "10.1.0.9";
      private_ip = "10.0.0.9";
      region = opts.region;
      instance_type = opts.instance_type;
    }),
    concat "run " opts.name ∷ w,
  );
  terminate_node = λ id w. (false, concat "terminate " id ∷ w);
}

abbrev clouds : Table String (CloudProvider (List String))
clouds = ("aws", cloud) ∷ []

abbrev accept : NodeRequest → List String → Option NodeAnswer × List String
accept req w = (some (record { status = 201; body = "" }), req.url ∷ w)
