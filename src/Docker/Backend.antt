-- ===== src/Docker/Backend.antt =====
-- runtime/docker/docker.go: the backend.
use gitvm.Base.{
  String, Bool, not, ◌&&◌, none, some, List, [], ◌∷◌, Result, ok, err, concat, if◌then◌else◌, ◌==◌,
  string_comparable,
}
use gitvm.Base.Scan.{trim_space, trim_prefix}
use gitvm.Runtime.{State, running, CreateOpts, Sandbox, SnapshotInfo, Runtime}
use gitvm.Docker.Commands.{
  DockerConfig, container, snapshot_image, create_args, restore_args, run_command, remove_command,
  inspect_command, commit_command, state_of, docker_to_gitvm, ps_row, image_row, lines,
}
use gitvm.Docker.Agent.{
  Reply, DockerError, command_failed, docker_failed, not_found, unresolved, wait_for_agent,
  resolve_agent_url,
}

abbrev pub status_format : String
status_format = "{{.State.Status}}"

abbrev pub label_format : String
label_format = "{{index .Config.Labels \"gitvm.id\"}}"

abbrev pub ps_command : List String
ps_command =
    "ps" ∷ "-a" ∷ "--filter" ∷ "label=gitvm=sandbox" ∷ "--format"
    ∷ "{{.Names}}\t{{.State}}\t{{.ID}}" ∷ []

abbrev pub images_command : List String
images_command =
    "images" ∷ "--filter" ∷ "reference=gitvm-snap-*" ∷ "--format"
    ∷ "{{.Repository}}\t{{.CreatedAt}}\t{{.Size}}" ∷ []

abbrev pub sandbox_of : String → State → String × String → Sandbox
sandbox_of id s (url, ip) = record {
  id = id;
  state = s;
  runtime = "docker";
  ip = ip;
  agent_url = url;
}

-- `agentURL, ip, _ := …`: both are empty where there is an error.
abbrev pub or_empty : Result DockerError (String × String) → String × String
or_empty (ok address) = address
or_empty (err e) = ("", "")

-- Whether `ListSnapshots` shows an image: a sandbox is asked for, the image names one, and they
-- differ ⟶ it does not.
unfoldable pub is_shown : String → String → Bool
is_shown id origin = not (not (id == "") && not (origin == "") && not (origin == id))

module _ {W : Type 0} (docker : List String → W → Reply × W) (healthy : String → W → Bool × W)
    (d : DockerConfig) where
  -- The end of `Create` and of `Restore`, where the container has been started. An agent that does
  -- not come up is only logged.
  unfoldable pub after_resolve :
      String → Result DockerError (String × String) × W → Result DockerError Sandbox × W
  unfolding wait_for_agent
  after_resolve id (err e, w) = (err (unresolved e), (docker (remove_command (container id)) w).1)
  after_resolve id (ok (url, ip), w) =
      (ok (sandbox_of id running (url, ip)), (wait_for_agent docker healthy d 30 url w).1)

  unfoldable pub after_run : String → String → Reply × W → Result DockerError Sandbox × W
  unfolding resolve_agent_url after_resolve
  after_run what id (r, w) =
      if r.done
      then after_resolve id (resolve_agent_url docker healthy d (container id) w)
      else (err (docker_failed what r.output), w)

  unfoldable pub create : CreateOpts → W → Result DockerError Sandbox × W
  unfolding after_run
  create opts w =
      after_run "docker run" opts.id
        (docker (run_command (container opts.id) (create_args d opts)) w)

  unfoldable pub restore : String → String → W → Result DockerError Sandbox × W
  unfolding after_run
  restore snapshot_id id w =
      after_run "docker run from snapshot" id
        (docker (run_command (container id) (restore_args d snapshot_id id)) w)

  -- `exec.CommandContext(…).Run()`
  unfoldable pub run : List String → W → Result DockerError (Unit {0}) × W
  run args w = let (r, w') = docker args w in (if r.done then ok tt else err command_failed, w')

  unfoldable pub start : String → W → Result DockerError (Unit {0}) × W
  unfolding run
  start id w = run ("start" ∷ container id ∷ []) w

  unfoldable pub stop : String → W → Result DockerError (Unit {0}) × W
  unfolding run
  stop id w = run ("stop" ∷ container id ∷ []) w

  unfoldable pub destroy : String → W → Result DockerError (Unit {0}) × W
  unfolding run
  destroy id w = run (remove_command (container id)) w

  unfoldable pub pause : String → W → Result DockerError (Unit {0}) × W
  unfolding run
  pause id w = run ("pause" ∷ container id ∷ []) w

  unfoldable pub resume : String → W → Result DockerError (Unit {0}) × W
  unfolding run
  resume id w = run ("unpause" ∷ container id ∷ []) w

  unfoldable pub get : String → W → Result DockerError Sandbox × W
  unfolding resolve_agent_url
  get id w =
      let (r, w') = docker (inspect_command (container id) status_format) w in
      let (a, w'') = resolve_agent_url docker healthy d (container id) w' in
      if r.done
      then (ok (sandbox_of id (docker_to_gitvm (trim_space r.output)) (or_empty a)), w'')
      else (err (not_found id), w')

  -- The loop of `List` over the lines.
  unfoldable pub list_lines : List String → W → List Sandbox × W
  unfolding resolve_agent_url
  list_lines [] w = ([], w)
  list_lines (line ∷ rest) w = elim (ps_row line) [
    | none ↦ list_lines rest w
    | some (name, s) ↦
        let (a, w') = resolve_agent_url docker healthy d name w in
        let (sandboxes, w'') = list_lines rest w' in
        (sandbox_of (trim_prefix name "gitvm-") (state_of s) (or_empty a) ∷ sandboxes, w'')
  ]

  unfoldable pub list : W → Result DockerError (List Sandbox) × W
  unfolding list_lines
  list w =
      let (r, w') = docker ps_command w in
      let (sandboxes, w'') = list_lines (lines r.output) w' in
      if r.done then (ok sandboxes, w'') else (err (docker_failed "docker ps" ""), w')

  unfoldable pub agent_url : String → W → Result DockerError String × W
  unfolding resolve_agent_url
  agent_url id w =
      let (r, w') = resolve_agent_url docker healthy d (container id) w in
      (elim r [ err e ↦ err e | ok (url, _) ↦ ok url ], w')

  -- `unpause` is deferred: it runs whether the commit succeeds or not.
  unfoldable pub snapshot : String → String → W → Result DockerError (Unit {0}) × W
  snapshot id snapshot_id w =
      let w₁ = (docker ("pause" ∷ container id ∷ []) w).1 in
      let (r, w₂) = docker (commit_command id snapshot_id) w₁ in
      let w₃ = (docker ("unpause" ∷ container id ∷ []) w₂).1 in
      (if r.done then ok tt else err (docker_failed "docker commit" r.output), w₃)

  unfoldable pub delete_snapshot : String → W → Result DockerError (Unit {0}) × W
  delete_snapshot snapshot_id w =
      let (r, w') = docker ("rmi" ∷ snapshot_image snapshot_id ∷ []) w in
      (if r.done then ok tt else err (docker_failed "docker rmi" r.output), w')

  -- The sandbox that an image was made from: what `inspect` prints of its label, failed or not.
  unfoldable pub origin_of : String → W → String × W
  origin_of repository w =
      let (r, w') = docker (inspect_command (concat repository ":latest") label_format) w in
      (trim_space r.output, w')

  unfoldable pub list_images : String → List String → W → List SnapshotInfo × W
  unfolding origin_of
  list_images id [] w = ([], w)
  list_images id (line ∷ rest) w =
      let (repository, created) = image_row line in
      let (origin, w') = origin_of repository w in
      let skipped = list_images id rest w in
      let (infos, w'') = list_images id rest w' in
      let info : SnapshotInfo = record {
        id = trim_prefix repository "gitvm-snap-";
        sandbox_id = origin;
        created_at = created;
        size_mb = 0;
      } in
      if line == "" then skipped else (if is_shown id origin then info ∷ infos else infos, w'')

  unfoldable pub list_snapshots : String → W → Result DockerError (List SnapshotInfo) × W
  unfolding list_images
  list_snapshots id w =
      let (r, w') = docker images_command w in
      let (infos, w'') = list_images id (lines r.output) w' in
      if r.done then (ok infos, w'') else (err (docker_failed "docker images" ""), w')

  unfoldable pub docker_runtime : Runtime DockerError W
  unfolding create start stop destroy pause resume get list agent_url snapshot restore
      delete_snapshot list_snapshots
  docker_runtime = record {
    name = "docker";
    create = create;
    start = start;
    stop = stop;
    destroy = destroy;
    pause = pause;
    resume = resume;
    get = get;
    list = list;
    agent_url = agent_url;
    snapshot = snapshot;
    restore = restore;
    delete_snapshot = delete_snapshot;
    list_snapshots = list_snapshots;
  }
