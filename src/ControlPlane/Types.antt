-- ===== src/ControlPlane/Types.antt =====
-- controlplane/types.go. Texts that the program compares are constructors. The metadata of a sandbox is
-- left out: no statement on the database writes or reads what a request gives.
use gitvm.Base.{ℕ, String, Bool, true, false, ℤ}
use gitvm.Base.Clock.{Time}
use gitvm.Base.Table.{Table}
use gitvm.Runtime.{State}

-- The values of a node's `Status`.
pub data NodeStatus : Type 0 where
  provisioning online draining offline terminating : NodeStatus

-- `status == "online"`
abbrev pub is_online : NodeStatus → Bool
is_online online = true
is_online _ = false

pub record Node : Type 0 where
  pub id : String
  pub name : String
  pub address : String
  pub public_ip : String
  pub provider : String
  pub provider_id : String
  pub region : String
  pub instance_type : String
  pub status : NodeStatus
  pub max_sandboxes : ℕ
  pub running : ℕ
  pub last_seen : Time
  pub created_at : Time

pub record Sandbox : Type 0 where
  pub id : String
  pub project_id : String
  pub node_id : String
  pub template : String
  pub status : State
  pub vcpus : ℕ
  pub memory_mb : ℕ
  pub host_ip : String
  pub timeout_sec : ℕ
  pub created_at : Time
  pub expires_at : Time

-- The creation times of projects and users are left out: nothing reads them.
pub record Project : Type 0 where
  pub id : String
  pub name : String
  pub api_key : String
  pub owner_id : String

pub record User : Type 0 where
  pub id : String
  pub email : String
  pub password_hash : String

pub record CloudPool : Type 0 where
  pub id : String
  pub name : String
  pub provider : String
  pub region : String
  pub instance_type : String
  pub runtime : String
  pub min_nodes : ℕ
  pub max_nodes : ℕ
  pub current_nodes : ℕ

pub record CreateSandboxRequest : Type 0 where
  pub template : String
  pub vcpus : ℤ
  pub memory_mb : ℤ
  pub timeout : ℤ
  pub env_vars : Table String String
