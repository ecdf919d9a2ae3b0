-- ===== src/Docker/Agent.antt =====
-- runtime/docker/docker.go: how the agent of a container is found. `docker` runs the command line tool: whether it exits with
-- status 0, and what it prints. `healthy` asks the agent at a URL whether it is up. Both are
-- parameters that may change the world.
use gitvm.Base.{
  ℕ, zero, suc, String, Bool, true, false, none, some, List, Result, ok, err, concat, decimal,
  if◌then◌else◌, ◌==◌, string_comparable,
}
use gitvm.Base.Scan.{trim_space}
use gitvm.Docker.Commands.{DockerConfig, default_port, port_command, inspect_command, host_port}

pub record Reply : Type 0 where
  pub done : Bool
  pub output : String

-- An error keeps what its text is built from.
pub data DockerError : Type 0 where
  command_failed : DockerError
  docker_failed : String → String → DockerError
  unexpected_port no_ip not_found : String → DockerError
  no_address unresolved : DockerError → DockerError

abbrev pub ip_format : String
ip_format = "{{range .NetworkSettings.Networks}}{{.IPAddress}}{{end}}"

module _ {W : Type 0} (docker : List String → W → Reply × W) (healthy : String → W → Bool × W)
    (d : DockerConfig) where
  unfoldable pub port_of : Reply → Result DockerError String
  port_of r = elim r.done [
    | false ↦ err command_failed
    | true ↦ elim (host_port r.output) [
      | none ↦ err (unexpected_port r.output)
      | some port ↦ ok port
    ]
  ]

  unfoldable pub get_host_port : String → W → Result DockerError String × W
  unfolding port_of
  get_host_port name w = let (r, w') = docker (port_command name) w in (port_of r, w')

  unfoldable pub ip_of : String → Reply → Result DockerError String
  ip_of name r =
      let ip = trim_space r.output in
      if r.done then (if ip == "" then err (no_ip name) else ok ip) else err command_failed

  unfoldable pub get_container_ip : String → W → Result DockerError String × W
  unfolding ip_of
  get_container_ip name w =
      let (r, w') = docker (inspect_command name ip_format) w in (ip_of name r, w')

  unfoldable pub ip_address :
      Result DockerError String × W → Result DockerError (String × String) × W
  ip_address (err e, w) = (err (no_address e), w)
  ip_address (ok ip, w) =
      (ok (concat "http://" (concat ip (concat ":" (decimal default_port))), ip), w)

  unfoldable pub address :
      String → Result DockerError String × W → Result DockerError (String × String) × W
  unfolding get_container_ip ip_address
  address name (err e, w) = ip_address (get_container_ip name w)
  address name (ok port, w) =
      if port == ""
      then ip_address (get_container_ip name w)
      else (ok (concat "http://127.0.0.1:" port, "127.0.0.1"), w)

  unfoldable pub resolve_agent_url : String → W → Result DockerError (String × String) × W
  unfolding get_host_port address
  resolve_agent_url name w = address name (get_host_port name w)

  -- The rounds that are left. The pause between two rounds is not modelled.
  unfoldable pub wait_for_agent : ℕ → String → W → Bool × W
  wait_for_agent zero url w = (false, w)
  wait_for_agent (suc n) url w =
      let (up, w') = healthy (concat url "/health") w in
      let later = wait_for_agent n url w' in if up then (true, w') else later
