-- ===== src/Docker/Agreement/Calls.antt =====
-- The calls of orchestrator/orchestrator.go over runtime/docker/docker.go, and the status of the
-- containers.
use gitvm.Base.{
  none, ◌≡◌, String, Bool, false, Option, some, List, [], ◌∷◌, ℤ, arith, inl, inr, leb, Bool-cases,
  Option-cases, string_comparable,
}
use gitvm.Base.Clock.{Time}
use gitvm.Base.Table.{Table}
use gitvm.Runtime.{running, paused, is_running, is_paused}
use gitvm.Orchestrator.Store.{get, list, expired, count}
use gitvm.Orchestrator.Calls.{
  Config, CreateRequest, Orchestrator, sandbox_id, create_opts, create, pause, resume, snapshot,
  restore, cleanup_expired, shutdown,
}
use gitvm.Orchestrator.Expiry.{shutdown-get}
use gitvm.Orchestrator.Valid.{IsValid}
use gitvm.Orchestrator.Valid.Calls.{
  Call, creates, deletes, pauses, resumes, snapshots, restores, cleans, shuts_down, step,
}
use gitvm.Docker.Commands.{DockerConfig, container}
use gitvm.Docker.Backend as Backend
use gitvm.Docker.Agent.{Reply}
use gitvm.Docker.Backend.{docker_runtime, run}
use gitvm.Docker.Daemon.{IsDaemon, IsUp, is, is_some}
use gitvm.Docker.Containers.{container_inj, create-IsRun, restore-IsRun, snapshot-status}
use gitvm.Docker.Agreement.{
  shown, SparesPaused, found_id, Agrees, finish_create-Agrees, finish_restore-Agrees,
  set_state-Agrees, delete_vm-Agrees, delete_each-Agrees, Turned,
}

module _ {W : Type 0} (docker : List String → W → Reply × W) (healthy : String → W → Bool × W)
    (status : String → W → Option String) (D : IsDaemon docker healthy status)
    (U : IsUp docker status) (d : DockerConfig) (init : String → Table String String → W → W)
    (quiet : (url : String) (vars : Table String String) (w : W) (name : String)
      → status name (init url vars w) ≡ status name w) where
  create-Agrees :
      (o : Orchestrator) (req : CreateRequest) (uuid : String) (now : Time) (w : W)
      → Agrees status o w
      → let s = create (docker_runtime docker healthy d) init o req uuid now w in
        Agrees status s.1 s.2
  unfolding create create_opts docker_runtime
  create-Agrees o req uuid now w a = elim (Bool-cases (leb o.config.max_vms (count o.store))) [
    | inl full ↦ rw (full, create) a
    | inr room ↦
        rw (room, create)
          (finish_create-Agrees docker healthy status D U d init quiet o req (sandbox_id uuid) now w
            _ a (create-IsRun docker healthy status D U d (create_opts (sandbox_id uuid) req) w))
  ]

  restore-Agrees :
      (o : Orchestrator) (snapshot_id : String) (timeout : ℤ) (uuid : String) (now : Time) (w : W)
      → Agrees status o w
      → let s = restore (docker_runtime docker healthy d) init o snapshot_id timeout uuid now w in
        Agrees status s.1 s.2
  unfolding restore docker_runtime
  restore-Agrees o snapshot_id timeout uuid now w a =
      elim (Bool-cases (leb o.config.max_vms (count o.store))) [
        | inl full ↦ rw (full, restore) a
        | inr room ↦
            rw (room, restore)
              (finish_restore-Agrees docker healthy status D U d init quiet o snapshot_id
                (sandbox_id uuid) timeout now w _ a
                (restore-IsRun docker healthy status D U d snapshot_id (sandbox_id uuid) w))
      ]

  pause-Turned :
      (id : String) (w : W)
      → status (container id) w ≡ some "running"
      → Turned docker healthy status D U d init quiet id paused w
          (Backend.pause docker healthy d id w)
  unfolding Backend.pause run
  pause-Turned id w up = elim (Bool-cases (docker ("pause" ∷ container id ∷ []) w).0.done) [
    | inl done ↦ rw done λ name. ground (arith, D.pause_status (container id) w name)
    | inr failed ↦ absurd (ground (arith, D.pause_done (container id) w))
  ]

  resume-Turned :
      (id : String) (w : W)
      → status (container id) w ≡ some "paused"
      → Turned docker healthy status D U d init quiet id running w
          (Backend.resume docker healthy d id w)
  unfolding Backend.resume run
  resume-Turned id w up = elim (Bool-cases (docker ("unpause" ∷ container id ∷ []) w).0.done) [
    | inl done ↦ rw done λ name. ground (arith, D.unpause_status (container id) w name)
    | inr failed ↦ absurd (ground (arith, D.unpause_done (container id) w))
  ]

  pause-Agrees :
      (config : Config) (o : Orchestrator) (id : String) (w : W)
      → IsValid config o
      → Agrees status o w
      → let s = pause (docker_runtime docker healthy d) init o id w in Agrees status s.1 s.2
  unfolding pause docker_runtime
  pause-Agrees config o id w v a = elim (Option-cases (get id o.store)) [
    | inl missing ↦ rw (missing, pause) a
    | inr (vm, found) ↦ elim (Bool-cases (is_running vm.state)) [
      | inl live ↦
          rw (found, live, pause)
            (set_state-Agrees docker healthy status D U d init quiet o id vm paused w _ a
              (found_id config o id vm v found) (pause-Turned id w (ground (arith, a id))))
      | inr other ↦ rw (found, other, pause) a
    ]
  ]

  resume-Agrees :
      (config : Config) (o : Orchestrator) (id : String) (w : W)
      → IsValid config o
      → Agrees status o w
      → let s = resume (docker_runtime docker healthy d) init o id w in Agrees status s.1 s.2
  unfolding resume docker_runtime
  resume-Agrees config o id w v a = elim (Option-cases (get id o.store)) [
    | inl missing ↦ rw (missing, resume) a
    | inr (vm, found) ↦ elim (Bool-cases (is_paused vm.state)) [
      | inl live ↦
          rw (found, live, resume)
            (set_state-Agrees docker healthy status D U d init quiet o id vm running w _ a
              (found_id config o id vm v found) (resume-Turned id w (ground (arith, a id))))
      | inr other ↦ rw (found, other, resume) a
    ]
  ]

  snapshot-Agrees :
      (o : Orchestrator) (id snapshot_id : String) (w : W)
      → Agrees status o w
      → is "paused" (shown (get id o.store)) ≡ false
      → let s = snapshot (docker_runtime docker healthy d) init o id snapshot_id w in
        Agrees status s.1 s.2
  unfolding snapshot docker_runtime
  snapshot-Agrees o id snapshot_id w a spared j = ground (
    arith,
    a id,
    a j,
    snapshot-status docker healthy status D d id snapshot_id w (container j),
    is_some "running" (status (container id) w),
    container_inj id j,
    string_comparable.same_iff id j,
  )

  -- Over a Docker daemon that is up, in which rm -f succeeds and a run that fails has made no
  -- container, each call of a well-formed orchestrator, but a snapshot of a paused sandbox, keeps
  -- the two in agreement: every sandbox of the store has a container whose status is its state,
  -- and there is no other container of a sandbox.
  pub step-Agrees :
      (config : Config) (c : Call) (o : Orchestrator) (w : W)
      → IsValid config o
      → SparesPaused c o
      → Agrees status o w
      → let s = step (docker_runtime docker healthy d) init c o w in Agrees status s.0 s.1
  unfolding step cleanup_expired shutdown
  step-Agrees config (creates req uuid now) o w v spares a = create-Agrees o req uuid now w a
  step-Agrees config (deletes id) o w v spares a =
      delete_vm-Agrees docker healthy status D U d init quiet o id w a
  step-Agrees config (pauses id) o w v spares a = pause-Agrees config o id w v a
  step-Agrees config (resumes id) o w v spares a = resume-Agrees config o id w v a
  step-Agrees config (snapshots id snapshot_id) o w v spares a =
      snapshot-Agrees o id snapshot_id w a spares
  step-Agrees config (restores snapshot_id timeout uuid now) o w v spares a =
      restore-Agrees o snapshot_id timeout uuid now w a
  step-Agrees config (cleans now) o w v spares a =
      delete_each-Agrees docker healthy status D U d init quiet (expired now o.store) o w a
  step-Agrees config shuts_down o w v spares a =
      delete_each-Agrees docker healthy status D U d init quiet (list o.store) o w a

  -- Over a Docker daemon that is up, after Shutdown of a well-formed orchestrator that agrees with
  -- it no sandbox has a container left.
  pub shutdown_containers :
      (config : Config) (o : Orchestrator) (w : W) (j : String)
      → IsValid config o
      → Agrees status o w
      → status (container j) (shutdown (docker_runtime docker healthy d) init o w).1 ≡ none
  unfolding step
  shutdown_containers config o w j v a = ground (
    arith,
    step-Agrees config shuts_down o w v tt a j,
    shutdown-get (docker_runtime docker healthy d) init config o j w v,
  )
