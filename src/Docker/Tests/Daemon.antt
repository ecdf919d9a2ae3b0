-- ===== src/Docker/Tests/Daemon.antt =====
-- A small Docker daemon: a table of containers. It answers as the program expects of Docker.
use gitvm.Base.{
  refl, String, Bool, true, false, Option, none, some, List, [], ◌∷◌, arith, if◌then◌else◌, ◌==◌,
  string_comparable, ==_refl,
}
use gitvm.Base.Table.{Table, lookup, insert, remove, lookup-insert, lookup-remove}
use gitvm.Docker.Agent.{Reply}
use gitvm.Docker.Daemon.{IsDaemon, IsUp, is}

abbrev pub answer : Bool → String → Reply
answer done output = record { done = done; output = output }

-- The containers by name, with their status.
abbrev pub Containers : Type 0
Containers = Table String String

run_it : List String → Containers → Reply × Containers
run_it (_ ∷ _ ∷ name ∷ _) w = elim (lookup name w) [
  | none ↦ (answer true "", insert name "running" w)
  | some _ ↦ (answer false "name in use", w)
]
run_it _ w = (answer false "", w)

remove_it : List String → Containers → Reply × Containers
remove_it (_ ∷ name ∷ _) w = (answer true "", remove name w)
remove_it _ w = (answer false "", w)

turn : String → String → List String → Containers → Reply × Containers
turn from to (name ∷ _) w =
    if is from (lookup name w) then (answer true "", insert name to w) else (answer false "", w)
turn from to _ w = (answer false "", w)

unfoldable pub daemon : List String → Containers → Reply × Containers
unfolding run_it remove_it turn lookup insert remove
daemon (verb ∷ rest) w =
    if verb == "run"
    then run_it rest w
    else if verb == "rm"
    then remove_it rest w
    else if verb == "pause"
    then turn "running" "paused" rest w
    else if verb == "unpause"
    then turn "paused" "running" rest w
    else if verb == "port"
    then (answer true "0.0.0.0:51830\n[::]:51830\n", w)
    else if verb == "images"
    then (answer true "gitvm-snap-s1\tnow\t1MB\n", w)
    else if verb == "inspect"
    then (answer true "sb-1\n", w)
    else (answer true "", w)
daemon [] w = (answer false "", w)

abbrev pub always_up : String → Containers → Bool × Containers
always_up url w = (true, w)

abbrev pub status : String → Containers → Option String
status name w = lookup name w

pub is_daemon : IsDaemon daemon always_up status
unfolding daemon
is_daemon = record {
  run_status = λ name rest w h.
      (ground arith, ground (arith, lookup-insert name name "running" w, ==_refl name));
  run_others = λ name rest w other differ. ground (arith, lookup-insert name other "running" w);
  remove_status = λ name w other. lookup-remove name other w;
  pause_status = λ name w other. ground (arith, lookup-insert name other "paused" w);
  pause_done = λ name w. ground arith;
  unpause_status = λ name w other. ground (arith, lookup-insert name other "running" w);
  unpause_done = λ name w. ground arith;
  port_status = λ name w other. refl;
  inspect_status = λ name format w other. refl;
  commit_status = λ id snapshot_id w other. refl;
  health_status = λ url w other. refl;
}

pub is_up : IsUp daemon status
unfolding daemon
is_up = record { removes = λ name w. refl; run_clean = λ name rest w h. ground arith }
