-- ===== src/Docker/Outcomes.antt =====
-- runtime/docker/docker.go: what Create and Restore leave behind, whichever of their commands fails.
-- Of Docker only `IsDaemon` is expected: `docker run` may leave a container when it fails, and
-- `docker rm -f` may fail.
use gitvm.Base.{
  ◌≡◌, ◌⊎◌, refl, sym, subst, ◌∙◌, String, Bool, true, false, Option, none, some, List, Result, ok,
  err, arith, inl, inr, Bool-cases, if◌then◌else◌, ◌==◌, string_comparable,
}
use gitvm.Runtime.{running, Sandbox}
use gitvm.Docker.Commands.{DockerConfig, container, run_command, remove_command}
use gitvm.Docker.Agent.{Reply, DockerError, docker_failed, resolve_agent_url}
use gitvm.Docker.Backend.{after_resolve, after_run}
use gitvm.Docker.Daemon.{IsDaemon}
use gitvm.Docker.Containers.{wait-status, resolve-status}

-- What is left of a sandbox by the reply to its `docker run` and the calls behind it: a new running
-- container; or, where `docker run` has failed, just what it has left; or, where it has not, what
-- `docker rm -f` has left, which is nothing if that succeeds.
abbrev pub IsOutcome :
    {W : Type 0}
    → (List String → W → Reply × W)
    → (String → W → Option String)
    → String
    → W
    → Reply × W
    → Result DockerError Sandbox × W
    → Type 0
IsOutcome docker status id w (r, w₀) (ok sb, w') =
    (r.done ≡ true)
    × (sb.id ≡ id)
    × (sb.state ≡ running)
    × (status (container id) w ≡ none)
    × (status (container id) w' ≡ some "running")
    × ((name : String) → (container id == name) ≡ false → status name w' ≡ status name w)
IsOutcome {W} docker status id w (r, w₀) (err e, w') =
    ((r.done ≡ false) × (w' ≡ w₀))
    ⊎ ((v : W) × (r.done ≡ true)
        × (w' ≡ (docker (remove_command (container id)) v).1)
        × ((name : String)
            → status name w' ≡ (
                if (docker (remove_command (container id)) v).0.done
                then status name w
                else status name w₀)))

module _ {W : Type 0} (docker : List String → W → Reply × W) (healthy : String → W → Bool × W)
    (status : String → W → Option String) (D : IsDaemon docker healthy status) where
  removed-status :
      (id : String) (w w₀ v : W) (name : String)
      → status (container id) w ≡ none
      → ((other : String) → (container id == other) ≡ false → status other w₀ ≡ status other w)
      → ((other : String) → status other v ≡ status other w₀)
      → status name (docker (remove_command (container id)) v).1 ≡ (
          if (docker (remove_command (container id)) v).0.done
          then status name w
          else status name w₀)
  removed-status id w w₀ v name new others same = ground (
    arith,
    D.remove_status (container id) v name,
    same name,
    others name,
    new,
    string_comparable.same_iff (container id) name,
  )

  after_resolve-IsOutcome :
      (d : DockerConfig) (id : String) (w w₀ : W) (ran : Reply)
      (r : Result DockerError (String × String) × W)
      → ran.done ≡ true
      → status (container id) w ≡ none
      → status (container id) w₀ ≡ some "running"
      → ((name : String) → (container id == name) ≡ false → status name w₀ ≡ status name w)
      → ((name : String) → status name r.1 ≡ status name w₀)
      → IsOutcome docker status id w (ran, w₀) (after_resolve docker healthy d id r)
  unfolding after_resolve
  after_resolve-IsOutcome d id w w₀ ran (err e, v) done new up others same =
      inr (v, done, refl, λ name. removed-status id w w₀ v name new others same)
  after_resolve-IsOutcome d id w w₀ ran (ok (url, ip), v) done new up others same =
      let waited = λ (name : String). wait-status docker healthy status D 30 d url v name in
      (
        done,
        refl,
        refl,
        new,
        waited (container id) ∙ same (container id) ∙ up,
        λ name differ. waited name ∙ same name ∙ others name differ,
      )

  after_run-done :
      (d : DockerConfig) (what id : String) (r : Reply) (w : W)
      → r.done ≡ true
      → after_run docker healthy d what id (r, w)
        ≡ after_resolve docker healthy d id (resolve_agent_url docker healthy d (container id) w)
  unfolding after_run
  after_run-done d what id r w done = rw (done, after_run) refl

  after_run-failed :
      (d : DockerConfig) (what id : String) (r : Reply) (w : W)
      → r.done ≡ false
      → after_run docker healthy d what id (r, w) ≡ (err (docker_failed what r.output), w)
  unfolding after_run
  after_run-failed d what id r w failed = rw (failed, after_run) refl

  -- Over a Docker daemon whose containers change by its commands alone, what Create and Restore do
  -- from docker run on leaves a new running container and changes no other when it succeeds. Where
  -- docker run fails, the call fails and does nothing more, so that what docker run has left
  -- stays; where docker run succeeds and the call fails, it ends with docker rm -f of the
  -- container: if that succeeds, no container has changed, and else all are as docker run left
  -- them.
  pub after_run-IsOutcome :
      (d : DockerConfig) (what id : String) (args : List String) (w : W)
      → IsOutcome docker status id w
          (docker (run_command (container id) args) w)
          (after_run docker healthy d what id (docker (run_command (container id) args) w))
  after_run-IsOutcome d what id args w =
      let name = container id in
      let ran = docker (run_command name args) w in
      elim (Bool-cases ran.0.done) [
        | inl done ↦
            subst (λ (q : Result DockerError Sandbox × W). IsOutcome docker status id w ran q)
              (sym (after_run-done d what id ran.0 ran.1 done))
              (after_resolve-IsOutcome d id w ran.1 ran.0
                (resolve_agent_url docker healthy d name ran.1) done
                (D.run_status name args w done).0 (D.run_status name args w done).1
                (D.run_others name args w) (resolve-status docker healthy status D d name ran.1))
        | inr failed ↦
            subst (λ (q : Result DockerError Sandbox × W). IsOutcome docker status id w ran q)
              (sym (after_run-failed d what id ran.0 ran.1 failed)) (inl (failed, refl))
      ]
