-- ===== src/Docker/Daemon.antt =====
-- What runtime/docker/docker.go relies on in Docker: the documented effect of the commands that it
-- gives on the status of the containers.
use gitvm.Base.{
  ◌≡◌, String, Bool, true, false, Option, none, some, List, [], ◌∷◌, if◌then◌else◌, arith, ◌==◌,
  ◌&&◌, string_comparable,
}
use gitvm.Docker.Commands.{
  run_command, remove_command, port_command, inspect_command, commit_command,
}
use gitvm.Docker.Agent.{Reply}

abbrev pub is : String → Option String → Bool
is s none = false
is s (some t) = s == t

pub is_some : (s : String) (o : Option String) → is s o ≡ true → o ≡ some s
is_some s (some t) h = ground (arith, string_comparable.same_iff s t)
is_some s none h = cc

-- That containers change by these commands alone: none ends by itself between two of them.
-- `status name w` is `{{.State.Status}}` of the container with the name, if there is one.
pub record IsDaemon {W : Type 0} (docker : List String → W → Reply × W)
    (healthy : String → W → Bool × W) (status : String → W → Option String) : Type 0 where
  -- `run` starts a new container, and takes a name that is free
  pub run_status :
      (name : String) (rest : List String) (w : W)
      → (docker (run_command name rest) w).0.done ≡ true
      → (status name w ≡ none) × (status name (docker (run_command name rest) w).1 ≡ some "running")
  pub run_others :
      (name : String) (rest : List String) (w : W) (other : String)
      → (name == other) ≡ false
      → status other (docker (run_command name rest) w).1 ≡ status other w
  -- `rm -f` ends the container with the name
  pub remove_status :
      (name : String) (w : W) (other : String)
      → status other (docker (remove_command name) w).1 ≡ (
          if (docker (remove_command name) w).0.done
          then (if name == other then none else status other w)
          else status other w)
  -- `pause` succeeds just on a running container, `unpause` on a paused one
  pub pause_status :
      (name : String) (w : W) (other : String)
      → status other (docker ("pause" ∷ name ∷ []) w).1
        ≡ (if is "running" (status name w) && name == other then some "paused" else status other w)
  pub pause_done :
      (name : String) (w : W)
      → (docker ("pause" ∷ name ∷ []) w).0.done ≡ is "running" (status name w)
  pub unpause_status :
      (name : String) (w : W) (other : String)
      → status other (docker ("unpause" ∷ name ∷ []) w).1
        ≡ (if is "paused" (status name w) && name == other then some "running" else status other w)
  pub unpause_done :
      (name : String) (w : W)
      → (docker ("unpause" ∷ name ∷ []) w).0.done ≡ is "paused" (status name w)
  -- these change no container
  pub port_status :
      (name : String) (w : W) (other : String)
      → status other (docker (port_command name) w).1 ≡ status other w
  pub inspect_status :
      (name format : String) (w : W) (other : String)
      → status other (docker (inspect_command name format) w).1 ≡ status other w
  pub commit_status :
      (id snapshot_id : String) (w : W) (other : String)
      → status other (docker (commit_command id snapshot_id) w).1 ≡ status other w
  pub health_status :
      (url : String) (w : W) (other : String) → status other (healthy url w).1 ≡ status other w

-- A daemon on which no command fails half way: each `rm -f` succeeds, and a `run` that fails has made
-- no container. Docker itself promises neither: a `run` whose container cannot be started leaves it.
pub record IsUp {W : Type 0} (docker : List String → W → Reply × W)
    (status : String → W → Option String) : Type 0 where
  pub removes : (name : String) (w : W) → (docker (remove_command name) w).0.done ≡ true
  pub run_clean :
      (name : String) (rest : List String) (w : W)
      → (docker (run_command name rest) w).0.done ≡ false
      → status name (docker (run_command name rest) w).1 ≡ status name w
