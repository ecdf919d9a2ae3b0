-- ===== src/Docker/Containers.antt =====
-- runtime/docker/docker.go: what the calls of the backend do to the containers of the daemon.

use text.Mathlib.TextLemmas.{append_cancel_left}
use gitvm.Base.{
  ◌≡◌, refl, sym, ◌∙◌, String, Bool, false, ◌&&◌, ◌||◌, Option, none, some, List, [], ◌∷◌, Result,
  ok, err, arith, inl, inr, Bool-cases, if◌then◌else◌, ◌==◌, string_comparable, ==_refl, zero, suc,
  ℕ, concat,
}
use gitvm.Runtime.{running, CreateOpts, Sandbox}
use gitvm.Docker.Commands.{
  DockerConfig, container, create_args, restore_args, run_command, remove_command, port_command,
  commit_command,
}
use gitvm.Docker.Agent.{
  Reply, DockerError, get_host_port, get_container_ip, ip_of, port_of, ip_address, address,
  resolve_agent_url, wait_for_agent, ip_format,
}
use gitvm.Docker.Backend.{
  after_resolve, after_run, create, restore, run, destroy, pause, resume, snapshot,
}
use gitvm.Docker.Daemon.{IsDaemon, IsUp, is}

-- Two sandboxes have one container only if they are one.
pub container_inj : (id j : String) → (container id == container j) ≡ (id == j)
container_inj id j = elim (Bool-cases (id == j)) [
  | inl same ↦
      let e : id ≡ j = (string_comparable.same_iff id j).0 same in
      rw (e, ==_refl j) (==_refl (container j))
  | inr differ ↦ elim (Bool-cases (container id == container j)) [
    | inr differ' ↦ differ' ∙ sym differ
    | inl same ↦
        let e : container id ≡ container j =
          (string_comparable.same_iff (container id) (container j)).0 same in
        let e' : id ≡ j = append_cancel_left "gitvm-" id j e in
        ground (arith, (string_comparable.same_iff id j).1 e')
  ]
]

-- What a call that starts a sandbox leaves: the container runs where it succeeds, and nothing has
-- changed where it fails.
abbrev pub IsRun :
    {W : Type 0}
    → (String → W → Option String)
    → String
    → W
    → Result DockerError Sandbox × W
    → Type 0
IsRun status id w (ok sb, w') =
    (sb.id ≡ id)
    × (sb.state ≡ running)
    × (status (container id) w ≡ none)
    × (status (container id) w' ≡ some "running")
    × ((name : String) → (container id == name) ≡ false → status name w' ≡ status name w)
IsRun status id w (err e, w') = (name : String) → status name w' ≡ status name w

module _ {W : Type 0} (docker : List String → W → Reply × W) (healthy : String → W → Bool × W)
    (status : String → W → Option String) (D : IsDaemon docker healthy status) where
  pub wait-status :
      (n : ℕ) (d : DockerConfig) (url : String) (w : W) (name : String)
      → status name (wait_for_agent docker healthy d n url w).1 ≡ status name w
  unfolding wait_for_agent
  wait-status zero d url w name = refl
  wait-status (suc n) d url w name = ground (
    arith,
    D.health_status (concat url "/health") w name,
    wait-status n d url (healthy (concat url "/health") w).1 name,
  )

  ip-status :
      (d : DockerConfig) (name : String) (w : W) (other : String)
      → status other (ip_address docker healthy d (get_container_ip docker healthy d name w)).1
        ≡ status other w
  unfolding get_container_ip ip_address ip_of
  ip-status d name w other = ground (arith, D.inspect_status name ip_format w other)

  pub resolve-status :
      (d : DockerConfig) (name : String) (w : W) (other : String)
      → status other (resolve_agent_url docker healthy d name w).1 ≡ status other w
  unfolding resolve_agent_url get_host_port address port_of
  resolve-status d name w other =
      ground
        (arith, D.port_status name w other, ip-status d name (docker (port_command name) w).1 other)

  after_resolve-IsRun :
      (U : IsUp docker status) (d : DockerConfig) (id : String) (w : W)
      (r : Result DockerError (String × String) × W)
      → status (container id) w ≡ none
      → status (container id) r.1 ≡ some "running"
      → ((name : String) → (container id == name) ≡ false → status name r.1 ≡ status name w)
      → IsRun status id w (after_resolve docker healthy d id r)
  unfolding after_resolve
  after_resolve-IsRun U d id w (err e, w') new up others = λ name. gone name
    where
      gone :
          (name : String)
          → status name (docker (remove_command (container id)) w').1 ≡ status name w
      gone name = ground (
        arith,
        D.remove_status (container id) w' name,
        U.removes (container id) w',
        others name,
        new,
        string_comparable.same_iff (container id) name,
      )
  after_resolve-IsRun U d id w (ok (url, ip), w') new up others = (
    refl,
    refl,
    new,
    wait-status 30 d url w' (container id) ∙ up,
    λ name differ. wait-status 30 d url w' name ∙ others name differ,
  )

  -- Where each rm -f succeeds and a docker run that fails has made no container, what Create and
  -- Restore do from docker run on leaves a new running container and no other change when it
  -- succeeds, and no change of any container when it fails.
  after_run-IsRun :
      (U : IsUp docker status) (d : DockerConfig) (what id : String) (args : List String) (w : W)
      → IsRun status id w
          (after_run docker healthy d what id (docker (run_command (container id) args) w))
  unfolding after_run
  after_run-IsRun U d what id args w =
      let name = container id in
      let w' = (docker (run_command name args) w).1 in
      elim (Bool-cases (docker (run_command name args) w).0.done) [
        | inl done ↦
            rw (done, after_run)
              (after_resolve-IsRun U d id w (resolve_agent_url docker healthy d name w')
                (D.run_status name args w done).0
                (resolve-status d name w' name ∙ (D.run_status name args w done).1)
                λ other differ.
                  resolve-status d name w' other ∙ D.run_others name args w other differ)
        | inr failed ↦
            rw (failed, after_run)
              λ other. ground (
                arith,
                U.run_clean name args w failed,
                D.run_others name args w other,
                string_comparable.same_iff name other,
              )
      ]

  pub create-IsRun :
      (U : IsUp docker status) (d : DockerConfig) (opts : CreateOpts) (w : W)
      → IsRun status opts.id w (create docker healthy d opts w)
  unfolding create
  create-IsRun U d opts w = after_run-IsRun U d "docker run" opts.id (create_args d opts) w

  pub restore-IsRun :
      (U : IsUp docker status) (d : DockerConfig) (snapshot_id id : String) (w : W)
      → IsRun status id w (restore docker healthy d snapshot_id id w)
  unfolding restore
  restore-IsRun U d snapshot_id id w =
      after_run-IsRun U d "docker run from snapshot" id (restore_args d snapshot_id id) w

  -- `Destroy` ends the one container.
  pub destroy-status :
      (U : IsUp docker status) (d : DockerConfig) (id : String) (w : W) (name : String)
      → status name (destroy docker healthy d id w).1
        ≡ (if container id == name then none else status name w)
  unfolding destroy run
  destroy-status U d id w name =
      ground (arith, D.remove_status (container id) w name, U.removes (container id) w)

  -- `Pause` on a container that runs, or `Resume` on one that is paused, succeeds and changes just its status; else
  -- the call fails and changes nothing.
  pub pause-status :
      (d : DockerConfig) (id : String) (w : W) (name : String)
      → status name (pause docker healthy d id w).1 ≡ (
          if is "running" (status (container id) w) && container id == name
          then some "paused"
          else status name w)
  unfolding pause run
  pause-status d id w name = D.pause_status (container id) w name

  pub resume-status :
      (d : DockerConfig) (id : String) (w : W) (name : String)
      → status name (resume docker healthy d id w).1 ≡ (
          if is "paused" (status (container id) w) && container id == name
          then some "running"
          else status name w)
  unfolding resume run
  resume-status d id w name = D.unpause_status (container id) w name

  -- After a snapshot, whether the commit succeeds or not, a sandbox that ran runs, and one that
  -- was paused runs too; no other container has changed.
  pub snapshot-status :
      (d : DockerConfig) (id snapshot_id : String) (w : W) (name : String)
      → status name (snapshot docker healthy d id snapshot_id w).1 ≡ (
          if (is "running" (status (container id) w) || is "paused" (status (container id) w))
            && container id == name
          then some "running"
          else status name w)
  unfolding snapshot
  snapshot-status d id snapshot_id w name =
      let c = container id in
      let w₁ = (docker ("pause" ∷ c ∷ []) w).1 in
      let w₂ = (docker (commit_command id snapshot_id) w₁).1 in
      ground (
        arith,
        D.pause_status c w name,
        D.pause_status c w c,
        D.commit_status id snapshot_id w₁ name,
        D.commit_status id snapshot_id w₁ c,
        D.unpause_status c w₂ name,
        string_comparable.same_iff c name,
        ==_refl c,
      )
