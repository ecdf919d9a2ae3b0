-- ===== src/Docker/Paused.antt =====
-- orchestrator/orchestrator.go over runtime/docker/docker.go: what a snapshot does to a sandbox that is
-- paused.
use gitvm.Base.{◌≡◌, String, Bool, Option, some, List, err, arith, string_comparable, ==_refl}
use gitvm.Base.Table.{Table}
use gitvm.Runtime.{paused}
use gitvm.Orchestrator.Store.{VmInstance, get}
use gitvm.Orchestrator.Calls.{
  Orchestrator, runtime_failed, not_running, set_state, pause, resume, snapshot,
}
use gitvm.Docker.Commands.{DockerConfig, container}
use gitvm.Docker.Backend as Backend
use gitvm.Docker.Agent.{Reply, command_failed}
use gitvm.Docker.Backend.{docker_runtime, run}
use gitvm.Docker.Daemon.{IsDaemon}
use gitvm.Docker.Containers.{snapshot-status}

module _ {W : Type 0} (docker : List String → W → Reply × W) (healthy : String → W → Bool × W)
    (status : String → W → Option String) (D : IsDaemon docker healthy status) (d : DockerConfig)
    (init : String → Table String String → W → W) where
  -- A snapshot of a sandbox that is paused, in the store and in Docker, leaves its container
  -- running while the store keeps it as paused, and after it both Resume and Pause of that sandbox
  -- fail.
  pub snapshot_paused :
      (o : Orchestrator) (id snapshot_id : String) (w : W) (vm : VmInstance)
      → status (container id) w ≡ some "paused"
      → get id o.store ≡ some vm
      → vm.state ≡ paused
      → let s = snapshot (docker_runtime docker healthy d) init o id snapshot_id w in
        (get id s.1.store ≡ some vm)
        × (status (container id) s.2 ≡ some "running")
        × ((resume (docker_runtime docker healthy d) init s.1 id s.2).0
            ≡ err (runtime_failed command_failed))
        × ((pause (docker_runtime docker healthy d) init s.1 id s.2).0
            ≡ err (not_running id paused))
  unfolding snapshot docker_runtime resume set_state pause Backend.resume run
  snapshot_paused o id snapshot_id w vm a found state =
      let c = container id in
      let w' = (Backend.snapshot docker healthy d id snapshot_id w).1 in
      (
        ground arith,
        ground (arith, snapshot-status docker healthy status D d id snapshot_id w c, ==_refl c),
        ground (
          arith,
          snapshot-status docker healthy status D d id snapshot_id w c,
          D.unpause_done c w',
          ==_refl c,
        ),
        ground arith,
      )
