-- ===== src/Runtime.antt =====
-- runtime/runtime.go: the interface of a sandbox backend.
pub mod Fake
use gitvm.Base.{ℕ, String, Bool, true, false, List, Result, ℤ}
use gitvm.Base.Table.{Table}

-- The values of a `State` field. `other` is a text that no part of the program writes itself.
pub data State : Type 0 where
  creating running paused stopped : State
  other : String → State

-- `state == "running"` and `state == "paused"`
abbrev pub is_running : State → Bool
is_running running = true
is_running _ = false

abbrev pub is_paused : State → Bool
is_paused paused = true
is_paused _ = false

pub record CreateOpts : Type 0 where
  pub id : String
  pub template : String
  pub vcpus : ℤ
  pub memory_mb : ℤ
  pub env_vars : Table String String

pub record Sandbox : Type 0 where
  pub id : String
  pub state : State
  pub runtime : String
  pub ip : String
  pub agent_url : String

pub record SnapshotInfo : Type 0 where
  pub id : String
  pub sandbox_id : String
  pub created_at : String
  pub size_mb : ℕ

-- `Runtime`: a call may fail with an error of `E`, and changes a state `W` that holds the backend
-- and the host below it.
pub record Runtime (E W : Type 0) : Type 0 where
  pub name : String
  pub create : CreateOpts → W → Result E Sandbox × W
  pub start : String → W → Result E (Unit {0}) × W
  pub stop : String → W → Result E (Unit {0}) × W
  pub destroy : String → W → Result E (Unit {0}) × W
  pub pause : String → W → Result E (Unit {0}) × W
  pub resume : String → W → Result E (Unit {0}) × W
  pub get : String → W → Result E Sandbox × W
  pub list : W → Result E (List Sandbox) × W
  pub agent_url : String → W → Result E String × W
  pub snapshot : String → String → W → Result E (Unit {0}) × W
  pub restore : String → String → W → Result E Sandbox × W
  pub delete_snapshot : String → W → Result E (Unit {0}) × W
  pub list_snapshots : String → W → Result E (List SnapshotInfo) × W
