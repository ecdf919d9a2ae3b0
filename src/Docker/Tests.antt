-- ===== src/Docker/Tests.antt =====
-- Runs of runtime/docker/docker.go over a small Docker daemon, and the theorems at concrete inputs.

mod Daemon
use gitvm.Base.{
  ℕ, ◌+◌, ◌<◌, ◌↔◌, nat_beq, ◌≡◌, refl, String, Bool, true, false, Option, none, some, List, [],
  ◌∷◌, map, Result, ok, err, pos, arith, if◌then◌else◌, ◌==◌, string_comparable, ==_refl, concat,
  decimal,
}
use gitvm.Base.Scan.{is_space, trim_space, before_first, after_last, split, split_n, trim_prefix}
use gitvm.Base.Table.{Table, lookup, insert, remove, lookup-insert, lookup-remove}
use gitvm.Runtime.{State, running, paused, stopped, other, CreateOpts, Sandbox}
use gitvm.Orchestrator.Store.{VmInstance, get}
use gitvm.Orchestrator.Calls.{
  Config, CreateRequest, Orchestrator, new_orchestrator, create_opts, snapshot, pause, resume,
  shutdown, runtime_failed, not_running,
}
use gitvm.Orchestrator.Valid.{IsValid, new_orchestrator-IsValid}
use gitvm.Orchestrator.Valid.Calls.{creates, step}
use gitvm.Docker.Commands.{
  DockerConfig, new, container, create_args, host_port, run_command, docker_to_gitvm, state_of,
  ps_row, image_row, lines,
}
use gitvm.Docker.Agent.{Reply, DockerError, command_failed, wait_for_agent}
use gitvm.Docker.Backend.{
  docker_runtime, create, after_run, get as docker_get, list as docker_list, list_snapshots,
  origin_of, is_shown,
}
use gitvm.Docker.Daemon.{IsDaemon, IsUp, is}
use gitvm.Docker.Containers.{container_inj}
use gitvm.Docker.Outcomes.{IsOutcome, after_run-IsOutcome}
use gitvm.Docker.Agreement.{shown}
use gitvm.Docker.Agreement.Calls.{step-Agrees, shutdown_containers}
use gitvm.Docker.Waiting.{asked, wait_for_agent_iff}
use gitvm.Docker.Paused.{snapshot_paused}
use gitvm.Docker.Answers.{host_port-print, create_args-default_image, AreOf, list_snapshots-AreOf}
use gitvm.Docker.Tests.Daemon.{answer, Containers, always_up, status, daemon, is_daemon, is_up}

abbrev config : DockerConfig
config = record { agent_binary_path = "/opt/agent"; default_image = ""; network = "" }

abbrev deaf : String → Table String String → Containers → Containers
deaf url vars w = w

abbrev limits : Config
limits = record { max_vms = 4; default_timeout_sec = 60 }

abbrev request : CreateRequest
request = record {
  template = "";
  vcpus = pos 2;
  memory_mb = pos 0;
  timeout = pos 0;
  metadata = [];
  env_vars = ("A", "1") ∷ [];
}

abbrev opts : CreateOpts
opts = record {
  id = "sb-1";
  template = "";
  vcpus = pos 2;
  memory_mb = pos 0;
  env_vars = ("A", "1") ∷ [];
}

arguments :
    create_args (new config) opts
    ≡ "--hostname" ∷ "sb-1" ∷ "--network" ∷ "bridge" ∷ "-p" ∷ "49983" ∷ "--label" ∷ "gitvm=sandbox"
      ∷ "--label" ∷ "gitvm.id=sb-1" ∷ "--cpus" ∷ "2" ∷ "-e" ∷ "A=1" ∷ "-v"
      ∷ "/opt/agent:/usr/local/bin/gitvm:ro" ∷ "ubuntu:22.04" ∷ "/bin/sh" ∷ "-c"
      ∷ "/usr/local/bin/gitvm agent start --port 49983" ∷ []
unfolding create_args new decimal
arguments = refl

published : host_port "0.0.0.0:51830\n[::]:51830\n" ≡ some "51830"
unfolding host_port trim_space before_first after_last
published = refl

abbrev ran : Result DockerError Sandbox × Containers
ran = create daemon always_up (new config) opts []

created : ran ≡ (
  ok (record {
    id = "sb-1";
    state = running;
    runtime = "docker";
    ip = "127.0.0.1";
    agent_url = "http://127.0.0.1:51830";
  }),
  ("gitvm-sb-1", "running") ∷ [],
)
unfolding create daemon host_port trim_space before_first after_last new
created = refl

-- `Get` translates the state of a stopped container, and `List` does not.
abbrev exited : List String → Containers → Reply × Containers
exited [] w = (answer false "", w)
exited (verb ∷ _) w =
    (answer true (if verb == "ps" then "gitvm-sb-1\texited\tc0ffee\n" else "exited\n"), w)

abbrev state_in : Result DockerError Sandbox → Option State
state_in (ok sb) = some sb.state
state_in (err e) = none

abbrev states_in : Result DockerError (List Sandbox) → List (String × State)
states_in (ok sandboxes) = map (λ (sb : Sandbox). (sb.id, sb.state)) sandboxes
states_in (err e) = []

got : state_in (docker_get exited always_up config "sb-1" []).0 ≡ some stopped
unfolding docker_get docker_to_gitvm trim_space host_port before_first after_last
got = refl

listed : states_in (docker_list exited always_up config []).0 ≡ ("sb-1", other "exited") ∷ []
unfolding docker_list lines ps_row split split_n trim_space trim_prefix state_of host_port
    before_first after_last
listed = refl

no_sandboxes :
    (j : String) → status (container j) [] ≡ shown (get j (new_orchestrator limits).store)
unfolding get lookup
no_sandboxes j = refl

abbrev after_create : Orchestrator × Containers
after_create =
    step (docker_runtime daemon always_up (new config)) deaf (creates request "1" 0)
      (new_orchestrator limits) []

step-Agrees_example :
    status (container "sb-1") after_create.1 ≡ shown (get "sb-1" after_create.0.store)
step-Agrees_example =
    step-Agrees daemon always_up status is_daemon is_up (new config) deaf (λ url vars w name. refl)
      limits (creates request "1" 0) (new_orchestrator limits) [] (new_orchestrator-IsValid limits)
      tt no_sandboxes "sb-1"

abbrev paused_vm : VmInstance
paused_vm = record {
  id = "sb-1";
  state = paused;
  runtime = "docker";
  template = "base";
  vcpus = 1;
  memory_mb = 512;
  created_at = 0;
  expires_at = 60;
  metadata = [];
  agent_url = "http://127.0.0.1:51830";
  guest_ip = "127.0.0.1";
}

abbrev held : Orchestrator
held = record { config = limits; store = ("sb-1", paused_vm) ∷ [] }

held-IsValid : IsValid limits held
unfolding lookup
held-IsValid = record {
  same_config = refl;
  distinct = (refl, tt);
  entries = λ k v e. ground (arith, string_comparable.same_iff "sb-1" k);
  bounded = omega arith;
}

held_agrees :
    (j : String) → status (container j) (("gitvm-sb-1", "paused") ∷ []) ≡ shown (get j held.store)
unfolding get lookup
held_agrees j = ground (arith, container_inj "sb-1" j)

snapshot_paused_example :
    let rt = docker_runtime daemon always_up config in
    let s = snapshot rt deaf held "sb-1" "s1" (("gitvm-sb-1", "paused") ∷ []) in
    (get "sb-1" s.1.store ≡ some paused_vm)
    × (status (container "sb-1") s.2 ≡ some "running")
    × ((resume rt deaf s.1 "sb-1" s.2).0 ≡ err (runtime_failed command_failed))
    × ((pause rt deaf s.1 "sb-1" s.2).0 ≡ err (not_running "sb-1" paused))
unfolding get lookup
snapshot_paused_example =
    snapshot_paused daemon always_up status is_daemon config deaf held "sb-1" "s1"
      (("gitvm-sb-1", "paused") ∷ []) paused_vm refl refl refl

after_run-IsOutcome_example :
    IsOutcome daemon status "sb-1" [] (daemon (run_command (container "sb-1") []) []) (
      after_run daemon always_up config "docker run" "sb-1"
        (daemon (run_command (container "sb-1") []) []))
after_run-IsOutcome_example =
    after_run-IsOutcome daemon always_up status is_daemon config "docker run" "sb-1" [] []

-- An agent that is up at the third question.
abbrev slow_start : String → ℕ → Bool × ℕ
slow_start url n = (nat_beq n 2, n + 1)

abbrev silent : List String → ℕ → Reply × ℕ
silent args n = (answer true "", n)
