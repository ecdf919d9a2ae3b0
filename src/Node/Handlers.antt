-- ===== src/Node/Handlers.antt =====
-- node/server.go: the handlers. The guest agent is reached over HTTP: its answer, or `none` where it
-- is unreachable, is a parameter and may change the world.
use gitvm.Base.{
  String, Option, none, some, List, [], Result, ok, err, ℤ, pos, concat, decimal, ◌/◌, ◌-◌,
  if◌then◌else◌, ◌==◌, string_comparable,
}
use gitvm.Base.Clock.{Time}
use gitvm.Base.Table.{Table, insert}
use gitvm.Http.{Response, respond, AgentRequest, AgentAnswer}
use gitvm.Runtime.{State, running, paused, is_running, is_paused, Runtime, SnapshotInfo}
use gitvm.Orchestrator.Store.{VmInstance, get, list}
use gitvm.Orchestrator.Calls.{CreateRequest, Orchestrator, OrchError}
use gitvm.Orchestrator.Calls as Calls

pub record NodeCreateRequest : Type 0 where
  pub sandbox_id : String
  pub template : String
  pub vcpus : ℤ
  pub memory_mb : ℤ
  pub timeout : ℤ
  pub env_vars : Table String String

-- The bodies that the handlers write. An error body keeps what its text is built from.
pub data Body (E : Type 0) : Type 0 where
  bad_request : Body E
  orch_error : OrchError E → Body E
  runtime_error : E → Body E
  no_sandbox : String → Body E
  not_running not_paused exec_not_running : String → State → Body E
  agent_unreachable : Body E
  created : String → State → String → Body E
  restored : String → String → State → String → Body E
  described : VmInstance → Body E
  listed : List VmInstance → Body E
  snapshot_created : String → String → Body E
  snapshots : List SnapshotInfo → Body E
  deleted is_now_paused is_now_running : Body E
  from_agent : String → Body E

-- `if r.URL.RawQuery != "" { targetURL += "?" + r.URL.RawQuery }`
abbrev pub with_query : String → String → String
with_query url query = if query == "" then url else concat url (concat "?" query)

-- The sandbox id of the request is decoded and not used.
unfoldable pub create_request : NodeCreateRequest → CreateRequest
create_request req = record {
  template = req.template;
  vcpus = req.vcpus;
  memory_mb = req.memory_mb;
  timeout = req.timeout;
  metadata = [];
  env_vars = req.env_vars;
}

unfoldable pub handle_list : {E : Type 0} → Orchestrator → Response (Body E)
handle_list o = respond 200 (listed (list o.store))

unfoldable pub handle_get : {E : Type 0} → String → Orchestrator → Response (Body E)
handle_get id o = elim (get id o.store) [
  | none ↦ respond 404 (no_sandbox id)
  | some vm ↦ respond 200 (described vm)
]

-- `inst.State = s`: the instance is shared with the store, so the entry of `id` changes.
unfoldable pub write_state : String → VmInstance → State → Orchestrator → Orchestrator
write_state id vm s o = record o { store = insert id (record vm { state = s }) o.store }

-- `snap-%s-%d` where the request names no snapshot
unfoldable pub snapshot_name : String → String → Time → String
snapshot_name id name now =
    if name == ""
    then concat "snap-" (concat id (concat "-" (decimal (now / 1000000000 - 62135596800))))
    else name

module _ {E W : Type 0} (rt : Runtime E W) (init_agent : String → Table String String → W → W) where
  unfoldable pub created_response :
      Result (OrchError E) VmInstance × Orchestrator × W → Response (Body E) × Orchestrator × W
  created_response (err e, o, w) = (respond 500 (orch_error e), o, w)
  created_response (ok vm, o, w) = (respond 201 (created vm.id vm.state vm.guest_ip), o, w)

  unfoldable pub handle_create :
      Option NodeCreateRequest
      → String
      → Time
      → Orchestrator
      → W
      → Response (Body E) × Orchestrator × W
  unfolding created_response create_request
  handle_create none uuid now o w = (respond 400 bad_request, o, w)
  handle_create (some req) uuid now o w =
      created_response (Calls.create rt init_agent o (create_request req) uuid now w)

  unfoldable pub handle_delete : String → Orchestrator → W → Response (Body E) × Orchestrator × W
  handle_delete id o w =
      let (r, o', w') = Calls.delete_vm rt init_agent o id w in
      (elim r [ err e ↦ respond 404 (orch_error e) | ok _ ↦ respond 200 deleted ], o', w')

  unfoldable pub handle_pause : String → Orchestrator → W → Response (Body E) × Orchestrator × W
  unfolding write_state
  handle_pause id o w = elim (get id o.store) [
    | none ↦ (respond 404 (no_sandbox id), o, w)
    | some vm ↦
        if is_running vm.state
        then (respond 200 is_now_paused, write_state id vm paused o, w)
        else (respond 409 (not_running id vm.state), o, w)
  ]

  unfoldable pub handle_resume : String → Orchestrator → W → Response (Body E) × Orchestrator × W
  unfolding write_state
  handle_resume id o w = elim (get id o.store) [
    | none ↦ (respond 404 (no_sandbox id), o, w)
    | some vm ↦
        if is_paused vm.state
        then (respond 200 is_now_running, write_state id vm running o, w)
        else (respond 409 (not_paused id vm.state), o, w)
  ]

  unfoldable pub handle_snapshot :
      String → Option String → Time → Orchestrator → W → Response (Body E) × Orchestrator × W
  unfolding snapshot_name
  handle_snapshot id none now o w = (respond 400 bad_request, o, w)
  handle_snapshot id (some name) now o w =
      let snapshot_id = snapshot_name id name now in
      let (r, o', w') = Calls.snapshot rt init_agent o id snapshot_id w in
      (
        elim r [
          | err e ↦ respond 500 (orch_error e)
          | ok _ ↦ respond 201 (snapshot_created snapshot_id id)
        ],
        o',
        w',
      )

  unfoldable pub restored_response :
      String
      → Result (OrchError E) VmInstance × Orchestrator × W
      → Response (Body E) × Orchestrator × W
  restored_response snapshot_id (err e, o, w) = (respond 500 (orch_error e), o, w)
  restored_response snapshot_id (ok vm, o, w) =
      (respond 201 (restored vm.id snapshot_id vm.state vm.guest_ip), o, w)

  -- A body that does not decode leaves the timeout at 0.
  unfoldable pub handle_restore :
      String → Option ℤ → String → Time → Orchestrator → W → Response (Body E) × Orchestrator × W
  unfolding restored_response
  handle_restore snapshot_id none uuid now o w =
      restored_response snapshot_id (Calls.restore rt init_agent o snapshot_id (pos 0) uuid now w)
  handle_restore snapshot_id (some timeout) uuid now o w =
      restored_response snapshot_id (Calls.restore rt init_agent o snapshot_id timeout uuid now w)

  unfoldable pub handle_delete_snapshot :
      String → Orchestrator → W → Response (Body E) × Orchestrator × W
  handle_delete_snapshot snapshot_id o w =
      let (r, w') = Calls.delete_snapshot rt init_agent snapshot_id w in
      (elim r [ err e ↦ respond 500 (runtime_error e) | ok _ ↦ respond 200 deleted ], o, w')

  unfoldable pub handle_list_snapshots :
      String → Orchestrator → W → Response (Body E) × Orchestrator × W
  handle_list_snapshots id o w =
      let (r, w') = Calls.list_snapshots rt init_agent id w in
      (
        elim r [ err e ↦ respond 500 (runtime_error e) | ok infos ↦ respond 200 (snapshots infos) ],
        o,
        w',
      )

unfoldable pub answer : {E : Type 0} → Option AgentAnswer → Response (Body E)
answer none = respond 502 agent_unreachable
answer (some a) = respond a.status (from_agent a.body)

module _ {E W : Type 0} (agent : AgentRequest → W → Option AgentAnswer × W) where
  -- `handleExec`, `handleExecStream`, `handleReadFile`, `handleWriteFile` and `handleListFiles` are
  -- this function at their method and path.
  unfoldable pub proxy_to_agent :
      String
      → String
      → String
      → String
      → String
      → Orchestrator
      → W
      → Response (Body E) × Orchestrator × W
  unfolding answer
  proxy_to_agent method path id query body o w = elim (get id o.store) [
    | none ↦ (respond 404 (no_sandbox id), o, w)
    | some vm ↦
        let url = with_query (concat vm.agent_url path) query in
        let (a, w') = agent (record { method = method; url = url; body = body }) w in
        if is_running vm.state
        then (answer a, o, w')
        else (respond 409 (exec_not_running id vm.state), o, w)
  ]
