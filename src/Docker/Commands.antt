-- ===== src/Docker/Commands.antt =====
-- runtime/docker/docker.go: the command lines that the backend gives to `docker`, and what it reads
-- from the answers.
use gitvm.Base.{
  ℕ, suc, String, Option, none, some, List, [], ◌∷◌, ◌++◌, ℤ, pos, concat, decimal, if◌then◌else◌,
  ◌==◌, string_comparable,
}
use gitvm.Base.Scan.{trim_space, before_first, after_last, split, split_n}
use gitvm.Base.Table.{Table}
use gitvm.Runtime.{State, creating, running, paused, stopped, other, CreateOpts}

-- `Config`, and the fields of `DockerRuntime` that `New` takes from it.
pub record DockerConfig : Type 0 where
  pub agent_binary_path : String
  pub default_image : String
  pub network : String

abbrev pub or_else : String → String → String
or_else s d = if s == "" then d else s

unfoldable pub new : DockerConfig → DockerConfig
new cfg = record {
  agent_binary_path = cfg.agent_binary_path;
  default_image = or_else cfg.default_image "ubuntu:22.04";
  network = or_else cfg.network "bridge";
}

-- `agent.DefaultPort`
abbrev pub default_port : ℕ
default_port = 49983

abbrev pub container : String → String
container id = concat "gitvm-" id

abbrev pub snapshot_image : String → String
snapshot_image snapshot_id = concat "gitvm-snap-" snapshot_id

-- A limit is named only where the request sets one.
unfoldable pub limit : String → String → ℤ → List String
limit flag unit (pos (suc n)) = flag ∷ concat (decimal (suc n)) unit ∷ []
limit flag unit _ = []

unfoldable pub env_args : Table String String → List String
env_args [] = []
env_args ((k, v) ∷ vars) = "-e" ∷ concat k (concat "=" v) ∷ env_args vars

unfoldable pub mount_args : DockerConfig → List String
mount_args d =
    if d.agent_binary_path == ""
    then []
    else "-v" ∷ concat d.agent_binary_path ":/usr/local/bin/gitvm:ro" ∷ []

-- The image, and the command that starts the agent.
unfoldable pub agent_args : String → List String
agent_args image =
    image
    ∷ "/bin/sh"
    ∷ "-c"
    ∷ concat "/usr/local/bin/gitvm agent start --port " (decimal default_port)
    ∷ []

-- What `run` is given behind the name of the container.
unfoldable pub sandbox_args : DockerConfig → String → List String
sandbox_args d id =
    "--hostname"
    ∷ id
    ∷ "--network"
    ∷ d.network
    ∷ "-p"
    ∷ decimal default_port
    ∷ "--label"
    ∷ "gitvm=sandbox"
    ∷ "--label"
    ∷ concat "gitvm.id=" id
    ∷ []

unfoldable pub create_args : DockerConfig → CreateOpts → List String
unfolding sandbox_args limit env_args mount_args agent_args
create_args d opts =
    sandbox_args d opts.id
    ++ (limit "--cpus" "" opts.vcpus
        ++ (limit "--memory" "m" opts.memory_mb
            ++ (env_args opts.env_vars
                ++ (mount_args d ++ agent_args (or_else opts.template d.default_image)))))

unfoldable pub restore_args : DockerConfig → String → String → List String
unfolding sandbox_args mount_args agent_args
restore_args d snapshot_id id =
    sandbox_args d id
    ++ ("--label"
        ∷ concat "gitvm.snapshot=" snapshot_id
        ∷ (mount_args d ++ agent_args (snapshot_image snapshot_id)))

-- `docker run -d --name NAME …`
abbrev pub run_command : String → List String → List String
run_command name rest = "run" ∷ "-d" ∷ "--name" ∷ name ∷ rest

abbrev pub remove_command : String → List String
remove_command name = "rm" ∷ "-f" ∷ name ∷ []

abbrev pub port_command : String → List String
port_command name = "port" ∷ name ∷ concat (decimal default_port) "/tcp" ∷ []

abbrev pub inspect_command : String → String → List String
inspect_command name format = "inspect" ∷ name ∷ "--format" ∷ format ∷ []

abbrev pub commit_command : String → String → List String
commit_command id snapshot_id =
    "commit"
    ∷ "--message"
    ∷ concat "snapshot of " id
    ∷ container id
    ∷ snapshot_image snapshot_id
    ∷ []

-- The port that `docker port` prints: what stands behind the last `:` of its first line.
unfoldable pub host_port : String → Option String
host_port output = after_last b':' (before_first b'\n' (trim_space output))

-- The state of a sandbox with this text.
unfoldable pub state_of : String → State
state_of s =
    if s == "running"
    then running
    else if s == "paused"
    then paused
    else if s == "stopped"
    then stopped
    else if s == "creating"
    then creating
    else other s

-- `dockerToGitvm`, and the text itself where the map has none.
unfoldable pub docker_to_gitvm : String → State
unfolding state_of
docker_to_gitvm s =
    if s == "running"
    then running
    else if s == "paused"
    then paused
    else if s == "exited"
    then stopped
    else if s == "created"
    then creating
    else state_of s

-- A row of `docker ps`: the name and the state, where the line has both.
unfoldable pub ps_row : String → Option (String × String)
ps_row line = elim (split_n b'\t' 2 line) [ name ∷ state ∷ _ ↦ some (name, state) | _ ↦ none ]

-- A row of `docker images`: the repository, and the time of creation where the line has one.
unfoldable pub image_row : String → String × String
image_row line = elim (split_n b'\t' 2 line) [
  | repository ∷ created ∷ _ ↦ (repository, created)
  | repository ∷ [] ↦ (repository, "")
  | [] ↦ ("", "")
]

unfoldable pub lines : String → List String
lines output = split b'\n' (trim_space output)
