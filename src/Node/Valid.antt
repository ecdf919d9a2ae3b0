-- ===== src/Node/Valid.antt =====
-- The requests of node/server.go and the well-formedness of the orchestrator behind them.
use gitvm.Base.{
  ◌≡◌, ◌⊎◌, inl, inr, refl, String, Option, none, some, Result, ok, err, ℤ, pos, arith, Bool-cases,
  Option-cases, string_comparable,
}
use gitvm.Base.Clock.{Time}
use gitvm.Base.Table.{Table}
use gitvm.Http.{AgentRequest, AgentAnswer}
use gitvm.Runtime.{State, running, paused, is_running, is_paused, Runtime}
use gitvm.Orchestrator.Store.{VmInstance, get, put}
use gitvm.Orchestrator.Calls.{Config, CreateRequest, Orchestrator, OrchError, sandbox_id}
use gitvm.Orchestrator.Calls as Calls
use gitvm.Orchestrator.Valid.{IsValid, update-IsValid}
use gitvm.Orchestrator.Valid.Calls.{
  create-IsValid, delete_vm-IsValid, snapshot-store, restore-IsValid,
}
use gitvm.Node.Handlers.{
  snapshot_name, handle_delete_snapshot, handle_list_snapshots, NodeCreateRequest, create_request,
  created_response, handle_create, handle_delete, write_state, handle_pause, handle_resume,
  handle_snapshot, restored_response, handle_restore, proxy_to_agent,
}
use gitvm.Node.Routes.{
  Request, post_sandboxes, get_sandboxes, get_sandbox, delete_sandbox, post_pause, post_resume,
  post_snapshot, post_restore, delete_snapshot, get_snapshots, post_exec, post_exec_stream,
  get_files, put_files, get_files_list, serve,
}

-- The state that the node keeps across a call: the shared instance is the entry of its own id.
pub write_state-put :
    (config : Config) (o : Orchestrator) (id : String) (vm : VmInstance) (s : State)
    → IsValid config o
    → get id o.store ≡ some vm
    → write_state id vm s o ≡ record o { store = put (record vm { state = s }) o.store }
unfolding write_state put get
write_state-put config o id vm s v found = rw (v.entries id vm found).0 refl

write_state-IsValid :
    (config : Config) (o : Orchestrator) (id : String) (vm : VmInstance) (s : State)
    → IsValid config o
    → get id o.store ≡ some vm
    → (s ≡ running) ⊎ (s ≡ paused)
    → IsValid config (write_state id vm s o)
write_state-IsValid config o id vm s v found live =
    rw (write_state-put config o id vm s v found) (update-IsValid config o id vm s v found live)

module _ {E W : Type 0} (rt : Runtime E W) (init_agent : String → Table String String → W → W) where
  created-IsValid :
      (config : Config) (r : Result (OrchError E) VmInstance × Orchestrator × W)
      → IsValid config r.1
      → IsValid config (created_response rt init_agent r).1
  unfolding created_response
  created-IsValid config (err e, o, w) v = v
  created-IsValid config (ok vm, o, w) v = v

  restored-IsValid :
      (config : Config) (snapshot_id : String)
      (r : Result (OrchError E) VmInstance × Orchestrator × W)
      → IsValid config r.1
      → IsValid config (restored_response rt init_agent snapshot_id r).1
  unfolding restored_response
  restored-IsValid config snapshot_id (err e, o, w) v = v
  restored-IsValid config snapshot_id (ok vm, o, w) v = v

  handle_create-IsValid :
      (config : Config) (req : Option NodeCreateRequest) (uuid : String) (now : Time)
      (o : Orchestrator) (w : W)
      → IsValid config o
      → IsValid config (handle_create rt init_agent req uuid now o w).1
  unfolding handle_create
  handle_create-IsValid config none uuid now o w v = v
  handle_create-IsValid config (some req) uuid now o w v =
      created-IsValid config (Calls.create rt init_agent o (create_request req) uuid now w)
        (create-IsValid rt init_agent config o (create_request req) uuid now w v)

  handle_pause-IsValid :
      (config : Config) (id : String) (o : Orchestrator) (w : W)
      → IsValid config o
      → IsValid config (handle_pause rt init_agent id o w).1
  unfolding handle_pause
  handle_pause-IsValid config id o w v = elim (Option-cases (get id o.store)) [
    | inl missing ↦ rw (missing, handle_pause) v
    | inr (vm, found) ↦ elim (Bool-cases (is_running vm.state)) [
      | inl live ↦
          rw (found, live, handle_pause)
            (write_state-IsValid config o id vm paused v found (inr refl))
      | inr other ↦ rw (found, other, handle_pause) v
    ]
  ]

  handle_resume-IsValid :
      (config : Config) (id : String) (o : Orchestrator) (w : W)
      → IsValid config o
      → IsValid config (handle_resume rt init_agent id o w).1
  unfolding handle_resume
  handle_resume-IsValid config id o w v = elim (Option-cases (get id o.store)) [
    | inl missing ↦ rw (missing, handle_resume) v
    | inr (vm, found) ↦ elim (Bool-cases (is_paused vm.state)) [
      | inl live ↦
          rw (found, live, handle_resume)
            (write_state-IsValid config o id vm running v found (inl refl))
      | inr other ↦ rw (found, other, handle_resume) v
    ]
  ]

  handle_snapshot-IsValid :
      (config : Config) (id : String) (name : Option String) (now : Time) (o : Orchestrator) (w : W)
      → IsValid config o
      → IsValid config (handle_snapshot rt init_agent id name now o w).1
  unfolding handle_snapshot
  handle_snapshot-IsValid config id none now o w v = v
  handle_snapshot-IsValid config id (some name) now o w v =
      rw (snapshot-store rt init_agent config o id (snapshot_name id name now) w) v

  handle_restore-IsValid :
      (config : Config) (snapshot_id : String) (timeout : Option ℤ) (uuid : String) (now : Time)
      (o : Orchestrator) (w : W)
      → IsValid config o
      → IsValid config (handle_restore rt init_agent snapshot_id timeout uuid now o w).1
  unfolding handle_restore
  handle_restore-IsValid config snapshot_id none uuid now o w v =
      restored-IsValid config snapshot_id _
        (restore-IsValid rt init_agent config o snapshot_id (pos 0) uuid now w v)
  handle_restore-IsValid config snapshot_id (some timeout) uuid now o w v =
      restored-IsValid config snapshot_id _
        (restore-IsValid rt init_agent config o snapshot_id timeout uuid now w v)

  delete_snapshot-store :
      (snapshot_id : String) (o : Orchestrator) (w : W)
      → (handle_delete_snapshot rt init_agent snapshot_id o w).1 ≡ o
  unfolding handle_delete_snapshot
  delete_snapshot-store snapshot_id o w = refl

  list_snapshots-store :
      (id : String) (o : Orchestrator) (w : W) → (handle_list_snapshots rt init_agent id o w).1 ≡ o
  unfolding handle_list_snapshots
  list_snapshots-store id o w = refl

module _ (E : Type 0) {W : Type 0} (agent : AgentRequest → W → Option AgentAnswer × W) where
  proxy_to_agent-store :
      (method path id query body : String) (o : Orchestrator) (w : W)
      → (proxy_to_agent {E = E} agent method path id query body o w).1 ≡ o
  unfolding proxy_to_agent
  proxy_to_agent-store method path id query body o w = ground arith

module _ {E W : Type 0} (rt : Runtime E W) (init_agent : String → Table String String → W → W)
    (agent : AgentRequest → W → Option AgentAnswer × W) where
  -- Every request that a node serves keeps its orchestrator well-formed: the keys are the ids,
  -- each sandbox is running or paused, and there are at most MaxVMs of them.
  pub serve-IsValid :
      (config : Config) (req : Request) (o : Orchestrator) (w : W)
      → IsValid config o
      → IsValid config (serve rt init_agent agent req o w).1
  unfolding serve handle_delete
  serve-IsValid config (post_sandboxes req uuid now) o w v =
      handle_create-IsValid rt init_agent config req uuid now o w v
  serve-IsValid config get_sandboxes o w v = v
  serve-IsValid config (get_sandbox id) o w v = v
  serve-IsValid config (delete_sandbox id) o w v = delete_vm-IsValid rt init_agent config o id w v
  serve-IsValid config (post_pause id) o w v = handle_pause-IsValid rt init_agent config id o w v
  serve-IsValid config (post_resume id) o w v = handle_resume-IsValid rt init_agent config id o w v
  serve-IsValid config (post_snapshot id name now) o w v =
      handle_snapshot-IsValid rt init_agent config id name now o w v
  serve-IsValid config (post_restore snapshot_id timeout uuid now) o w v =
      handle_restore-IsValid rt init_agent config snapshot_id timeout uuid now o w v
  serve-IsValid config (delete_snapshot snapshot_id) o w v =
      rw (delete_snapshot-store rt init_agent snapshot_id o w) v
  serve-IsValid config (get_snapshots id) o w v = rw (list_snapshots-store rt init_agent id o w) v
  serve-IsValid config (post_exec id query body) o w v =
      rw (proxy_to_agent-store E agent "POST" "/exec" id query body o w) v
  serve-IsValid config (post_exec_stream id query body) o w v =
      rw (proxy_to_agent-store E agent "POST" "/exec/stream" id query body o w) v
  serve-IsValid config (get_files id query body) o w v =
      rw (proxy_to_agent-store E agent "GET" "/files" id query body o w) v
  serve-IsValid config (put_files id query body) o w v =
      rw (proxy_to_agent-store E agent "PUT" "/files" id query body o w) v
  serve-IsValid config (get_files_list id query body) o w v =
      rw (proxy_to_agent-store E agent "GET" "/files/list" id query body o w) v
