-- ===== src/Sdk/Machine.antt =====
-- sdk/machine.go: the machine of one VM, over the client. A method that fails in the client keeps its
-- error.
use Prim.Native.String.{String}
use gitvm.Base.{
  Bool, true, false, Option, List, [], Result, ok, err, ℤ, if◌then◌else◌, ◌==◌, string_comparable,
}
use gitvm.Base.Table.{Table}
use gitvm.Sdk.Client.{
  Client, new_client, Fields, HttpRequest, HttpAnswer, ClientError, ExecuteOptions, ExecutionResult,
  with_text, with_positive, with_texts, text_at, text_or, create_vm, delete_vm,
}
use gitvm.Sdk.Client as Client

pub data MachineState : Type 0 where
  idle running paused stopped : MachineState

unfoldable pub is_running : MachineState → Bool
is_running running = true
is_running _ = false

-- A map that is nil is `none`.
pub record GitVmConfig : Type 0 where
  pub server_url : String
  pub api_key : String
  pub template : String
  pub vcpus : ℤ
  pub memory_mb : ℤ
  pub timeout : ℤ
  pub env_vars : Option (Table String String)
  pub metadata : Option (Table String String)

pub record GitVmMachine : Type 0 where
  pub config : GitVmConfig
  pub client : Client
  pub vm_id : String
  pub state : MachineState

pub data MachineError : Type 0 where
  already_running : MachineError
  not_running : MachineState → MachineError
  failed : ClientError → MachineError

unfoldable pub with_server : GitVmConfig → GitVmConfig
with_server config =
    if config.server_url == ""
    then record config { server_url = "http://localhost:8080" }
    else config

unfoldable pub new_git_vm_machine : GitVmConfig → GitVmMachine
unfolding with_server
new_git_vm_machine config =
    let c = with_server config in
    record { config = c; client = new_client c.server_url c.api_key; vm_id = ""; state = idle }

unfoldable pub start_body : GitVmConfig → Fields
unfolding with_text with_positive with_texts
start_body c = with_texts "metadata" c.metadata (
    with_texts "envVars" c.env_vars (
      with_positive "timeout" c.timeout (
        with_positive "memoryMB" c.memory_mb
          (with_positive "vcpus" c.vcpus (with_text "template" c.template [])))))

-- An answer without an id keeps the one that the machine had.
unfoldable pub started :
    GitVmMachine → Result ClientError Fields → Result MachineError (Unit {0}) × GitVmMachine
unfolding text_at
started m (err e) = (err (failed e), m)
started m (ok resp) =
    (ok tt, record m { vm_id = text_or m.vm_id (text_at "id" resp); state = running })

unfoldable pub stopped_with :
    GitVmMachine → Result ClientError (Unit {0}) → Result MachineError (Unit {0}) × GitVmMachine
stopped_with m (err e) = (err (failed e), m)
stopped_with m (ok _) = (ok tt, record m { state = stopped })

unfoldable pub pause : GitVmMachine → Result MachineError (Unit {0}) × GitVmMachine
pause m = (ok tt, record m { state = paused })

unfoldable pub resume : GitVmMachine → Result MachineError (Unit {0}) × GitVmMachine
resume m = (ok tt, record m { state = running })

abbrev pub in_client : {A : Type 0} → Result ClientError A → Result MachineError A
in_client (err e) = err (failed e)
in_client (ok a) = ok a

-- What `Execute`, `ReadFile`, `WriteFile` and `ListFiles` begin with.
unfoldable pub if_running :
    {A W : Type 0} → GitVmMachine → (W → Result ClientError A × W) → W → Result MachineError A × W
unfolding is_running
if_running m call w =
    let (r, w') = call w in
    if is_running m.state then (in_client r, w') else (err (not_running m.state), w)

module _ {W : Type 0} (parses : String → Bool) (ask : HttpRequest → W → Option HttpAnswer × W)
    (decode : String → Option Fields) where
  unfoldable pub start : GitVmMachine → W → Result MachineError (Unit {0}) × GitVmMachine × W
  unfolding is_running start_body started
  start m w =
      let (r, w') = create_vm parses ask decode m.client (start_body m.config) w in
      let (e, m') = started m r in
      if is_running m.state then (err already_running, m, w) else (e, m', w')

  unfoldable pub stop : GitVmMachine → W → Result MachineError (Unit {0}) × GitVmMachine × W
  unfolding stopped_with
  stop m w =
      let (r, w') = delete_vm parses ask m.client m.vm_id w in
      let (e, m') = stopped_with m r in
      if m.vm_id == "" then (ok tt, record m { state = stopped }, w) else (e, m', w')

  unfoldable pub execute :
      GitVmMachine → String → Option ExecuteOptions → W → Result MachineError ExecutionResult × W
  unfolding if_running
  execute m command opts =
      if_running m (Client.exec parses ask decode m.client m.vm_id command opts)

  module _ (query_escape : String → String) where
    unfoldable pub read_file : GitVmMachine → String → W → Result MachineError String × W
    unfolding if_running
    read_file m path = if_running m (Client.read_file parses ask query_escape m.client m.vm_id path)

    unfoldable pub write_file :
        GitVmMachine → String → String → W → Result MachineError (Unit {0}) × W
    unfolding if_running
    write_file m path content =
        if_running m (Client.write_file parses ask query_escape m.client m.vm_id path content)

    unfoldable pub list_files :
        (String → Option (List String))
        → GitVmMachine
        → String
        → W
        → Result MachineError (List String) × W
    unfolding if_running
    list_files names m path =
        if_running m (Client.list_files parses ask query_escape names m.client m.vm_id path)
