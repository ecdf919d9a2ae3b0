-- ===== src/Docker/Tracking.antt =====
-- runtime/docker/docker.go as the backend of an orchestrator: which sandboxes have a container.
use gitvm.Base.{
  ◌≡◌, String, Bool, true, false, Option, none, some, List, Result, ok, err, arith, ◌==◌,
  string_comparable,
}
use gitvm.Base.Table.{Table}
use gitvm.Runtime.{Sandbox}
use gitvm.Orchestrator.Backing.{or_had, IsTracking}
use gitvm.Docker.Commands.{DockerConfig, container}
use gitvm.Docker.Agent.{Reply, DockerError}
use gitvm.Docker.Backend.{create, restore, docker_runtime}
use gitvm.Docker.Daemon.{IsDaemon, IsUp}
use gitvm.Docker.Containers.{
  container_inj, IsRun, create-IsRun, restore-IsRun, destroy-status, pause-status, resume-status,
  snapshot-status,
}

-- Whether there is a container for the sandbox, in whatever state.
abbrev pub has_container : {W : Type 0} → (String → W → Option String) → String → W → Bool
has_container status j w = elim (status (container j) w) [ none ↦ false | some _ ↦ true ]

module _ {W : Type 0} (docker : List String → W → Reply × W) (healthy : String → W → Bool × W)
    (status : String → W → Option String) (D : IsDaemon docker healthy status)
    (U : IsUp docker status) where
  run-has :
      (id : String) (w : W) (r : Result DockerError Sandbox × W) (j : String)
      → IsRun status id w r
      → has_container status j r.1 ≡ or_had r.0 (id == j) (has_container status j w)
  run-has id w (err e, w') j same = ground (arith, same (container j))
  run-has id w (ok sb, w') j (_, _, _, up, others) =
      ground (arith, up, others (container j), container_inj id j, string_comparable.same_iff id j)

  -- The backend keeps to what an orchestrator expects of it.
  pub docker-IsTracking :
      (d : DockerConfig) (init : String → Table String String → W → W)
      → ((url : String) (vars : Table String String) (w : W) (name : String)
          → status name (init url vars w) ≡ status name w)
      → IsTracking (docker_runtime docker healthy d) init (has_container status)
  unfolding docker_runtime
  docker-IsTracking d init quiet = record {
    creates_one = λ opts w j.
        run-has opts.id w (create docker healthy d opts w) j
          (create-IsRun docker healthy status D U d opts w);
    restores_one = λ snapshot_id id w j.
        run-has id w (restore docker healthy d snapshot_id id w) j
          (restore-IsRun docker healthy status D U d snapshot_id id w);
    destroys_one = λ id w j.
        ground (
          arith,
          destroy-status docker healthy status D U d id w (container j),
          container_inj id j,
        );
    pause_keeps = λ id w j. ground (
      arith,
      pause-status docker healthy status D d id w (container j),
      string_comparable.same_iff (container id) (container j),
    );
    resume_keeps = λ id w j. ground (
      arith,
      resume-status docker healthy status D d id w (container j),
      string_comparable.same_iff (container id) (container j),
    );
    snapshot_keeps = λ id snapshot_id w j. ground (
      arith,
      snapshot-status docker healthy status D d id snapshot_id w (container j),
      string_comparable.same_iff (container id) (container j),
    );
    init_keeps = λ url vars w j. ground (arith, quiet url vars w (container j));
  }
