-- ===== src/Node/Guarantees.antt =====
-- What the API of node/server.go guarantees.
use text.Mathlib.TextLemmas.{append_assoc}
use gitvm.Base.{
  ◌≡◌, ◌==◌, inl, inr, refl, String, Option, none, some, Result, ok, err, arith, concat, Bool-cases,
  Option-cases, if◌then◌else◌, string_comparable,
}
use gitvm.Base.Clock.{Time}
use gitvm.Base.Table.{Table}
use gitvm.Http.{AgentRequest, AgentAnswer, Response, respond}
use gitvm.Runtime.{State, running, paused, is_running, Runtime}
use gitvm.Orchestrator.Store.{VmInstance, get}
use gitvm.Orchestrator.Calls.{Config, CreateRequest, Orchestrator, OrchError, sandbox_id}
use gitvm.Orchestrator.Creation.{IsCreation, create-IsCreation}
use gitvm.Orchestrator.Calls as Calls
use gitvm.Orchestrator.Valid.{IsValid}
use gitvm.Node.Valid.{write_state-put}
use gitvm.Node.Handlers.{
  handle_resume, NodeCreateRequest, Body, no_sandbox, exec_not_running, created, with_query,
  agent_unreachable, from_agent, create_request, created_response, handle_create, handle_pause,
  answer, proxy_to_agent,
}

-- The agent's own status and body, or 502.
abbrev pub passed_on : {E : Type 0} → Option AgentAnswer → Response (Body E)
passed_on none = respond 502 agent_unreachable
passed_on (some a) = respond a.status (from_agent a.body)

-- How a request for the agent of sandbox `id` is answered.
abbrev pub IsProxied :
    {E W : Type 0}
    → (AgentRequest → W → Option AgentAnswer × W)
    → (VmInstance → AgentRequest)
    → String
    → Option VmInstance
    → Orchestrator
    → W
    → Response (Body E) × Orchestrator × W
    → Type 0
IsProxied agent req id none o w r = r ≡ (respond 404 (no_sandbox id), o, w)
IsProxied agent req id (some vm) o w r =
    if is_running vm.state
    then r ≡ (passed_on (agent (req vm) w).0, o, (agent (req vm) w).1)
    else r ≡ (respond 409 (exec_not_running id vm.state), o, w)

abbrev pub agent_request : String → String → String → String → VmInstance → AgentRequest
agent_request method path query body vm = record {
  method = method;
  url =
      if query == ""
      then concat vm.agent_url path
      else concat vm.agent_url (concat path (concat "?" query));
  body = body;
}

answer_lem : (E : Type 0) (a : Option AgentAnswer) → answer {E = E} a ≡ passed_on a
unfolding answer
answer_lem E none = refl
answer_lem E (some a) = refl

url_lem :
    (url path query : String)
    → with_query (concat url path) query
      ≡ (if query == "" then concat url path else concat url (concat path (concat "?" query)))
url_lem url path query = rw (append_assoc url path (concat "?" query)) refl

module _ (E : Type 0) {W : Type 0} (agent : AgentRequest → W → Option AgentAnswer × W) where
  -- A request for an agent goes out exactly when the sandbox is there and running, to its own URL
  -- with the path and the query, and the answer, or 502, comes back; otherwise it is answered by
  -- 404 or 409 and the agent is not asked; the store never changes.
  pub proxy_to_agent-IsProxied :
      (method path id query body : String) (o : Orchestrator) (w : W)
      → IsProxied {E = E} agent
          (agent_request method path query body)
          id
          (get id o.store)
          o
          w
          (proxy_to_agent agent method path id query body o w)
  unfolding proxy_to_agent
  proxy_to_agent-IsProxied method path id query body o w = elim (Option-cases (get id o.store)) [
    | inl missing ↦ rw (missing, proxy_to_agent) refl
    | inr (vm, found) ↦ elim (Bool-cases (is_running vm.state)) [
      | inl live ↦
          rw (found, live, proxy_to_agent, answer_lem E, url_lem vm.agent_url path query) refl
      | inr other ↦ rw (found, other, proxy_to_agent) refl
    ]
  ]

module _ {E W : Type 0} (rt : Runtime E W) (init_agent : String → Table String String → W → W) where
  -- Over a well-formed orchestrator the pause and resume handlers of the node leave the world as
  -- it was, so that the runtime is never asked, and record what Pause and Resume of the
  -- orchestrator record when the runtime succeeds.
  pub handle_pause_unasked :
      (config : Config) (id : String) (o : Orchestrator) (w : W)
      → IsValid config o
      → ((handle_pause rt init_agent id o w).2 ≡ w)
        × ((rt.pause id w).0 ≡ ok tt
            → (handle_pause rt init_agent id o w).1 ≡ (Calls.pause rt init_agent o id w).1)
        × ((handle_resume rt init_agent id o w).2 ≡ w)
        × ((rt.resume id w).0 ≡ ok tt
            → (handle_resume rt init_agent id o w).1 ≡ (Calls.resume rt init_agent o id w).1)
  unfolding handle_pause handle_resume Calls.pause Calls.resume Calls.set_state
  handle_pause_unasked config id o w v = elim (Option-cases (get id o.store)) [
    | inl missing ↦ ground arith
    | inr (vm, found) ↦ ground (
      arith,
      write_state-put config o id vm paused v found,
      write_state-put config o id vm running v found,
    )
  ]

  created_renames :
      (req : CreateRequest) (o : Orchestrator) (w : W) (own : String)
      (r : Result (OrchError E) VmInstance × Orchestrator × W) (id ip : String) (s : State)
      → IsCreation rt o req own w r
      → (created_response rt init_agent r).0 ≡ respond 201 (created id s ip)
      → id ≡ own
  unfolding created_response
  created_renames req o w own (err e, o', w') id ip s c h = absurd (ground arith)
  created_renames req o w own (ok vm, o', w') id ip s c h = ground (arith, c.1)

  -- A sandbox that the node creates has an id of its own making, whatever id the request asks for.
  pub handle_create_renames :
      (req : NodeCreateRequest) (uuid : String) (now : Time) (o : Orchestrator) (w : W)
      (id ip : String) (s : State)
      → (handle_create rt init_agent (some req) uuid now o w).0 ≡ respond 201 (created id s ip)
      → id ≡ sandbox_id uuid
  unfolding handle_create
  handle_create_renames req uuid now o w id ip s h =
      created_renames (create_request req) o w (sandbox_id uuid)
        (Calls.create rt init_agent o (create_request req) uuid now w) id ip s
        (create-IsCreation rt init_agent o (create_request req) uuid now w) h
