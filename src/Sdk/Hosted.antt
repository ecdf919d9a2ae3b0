-- ===== src/Sdk/Hosted.antt =====
-- sdk/machine.go over the server of a single host: what starting and stopping a machine does there.
use Prim.Native.String.{String}
use text.Mathlib.TextPositions.{starts_with-append}
use gitvm.Base.{
  ◌≡◌, ◌≢◌, refl, Bool, true, false, Option, some, Result, ok, err, concat, arith, ◌==◌, ==_refl,
  string_comparable,
}
use gitvm.Base.Clock.{Time}
use gitvm.Base.Table.{Table}
use gitvm.Base.Scan.{trim_prefix, Lacks}
use gitvm.Base.Scan.Cuts.{before_first_whole, slice-concat}
use gitvm.Http.{AgentRequest, AgentAnswer}
use gitvm.Runtime.{Runtime}
use gitvm.Orchestrator.Store.{VmInstance}
use gitvm.Orchestrator.Calls.{Orchestrator, OrchError, create, delete_vm}
use gitvm.Api.Handlers.{
  Outcome, reply, VmResponse, Body, orch_error, one_vm, deleted, create_request, create_vm,
  created_answer, to_vm_response,
}
use gitvm.Api.Handlers as Handlers
use gitvm.Api.Server.{Request, post_vms, delete_one, presented_key, route, cors, handler}
use gitvm.Sdk.Client.{
  HttpRequest, HttpAnswer, decoded, mapped, Client, Fields, json, no_payload, request_of, checked,
  do_request, post_json, returned, text_at,
}
use gitvm.Sdk.Client as Client
use gitvm.Sdk.Machine.{
  GitVmMachine, MachineError, failed, running, stopped, is_running, start_body, started,
  stopped_with, start, stop,
}
use gitvm.Sdk.Host.{requested, routed, host, shown}
use gitvm.Sdk.Body.{wanted, requested-start_body}

trim_prefix-concat : (s t : String) → trim_prefix (concat s t) s ≡ t
unfolding trim_prefix
trim_prefix-concat s t = rw (starts_with-append s t) (slice-concat s t)

routed-start :
    (base key uuid : String) (now : Time) (fields : Fields)
    → routed base uuid now
        (request_of (record { base_url = base; api_key = key }) "POST" "/v1/vms" (json fields))
      ≡ post_vms (some (requested fields)) uuid now
unfolding request_of
routed-start base key uuid now fields = rw (trim_prefix-concat base "/v1/vms") refl

routed-stop :
    (base key uuid id : String) (now : Time)
    → Lacks b'/' id
    → routed base uuid now (
        request_of
          (record { base_url = base; api_key = key })
          "DELETE"
          (concat "/v1/vms/" id)
          no_payload)
      ≡ delete_one id
unfolding request_of
routed-stop base key uuid id now l =
    rw
      (
        trim_prefix-concat base (concat "/v1/vms/" id),
        trim_prefix-concat "/v1/vms/" id,
        starts_with-append "/v1/vms/" id,
        before_first_whole b'/' id l,
        ==_refl id,
      )
      refl

-- What is read from the JSON text of a VM is an object with its id.
abbrev pub IsJson : (E : Type 0) → (Body E → String) → (String → Option Fields) → Type 0
IsJson E encode decode =
    (vm : VmResponse)
    → (fields : Fields) × (decode (encode (one_vm vm)) ≡ some fields)
      × (text_at "id" fields ≡ some vm.id)

abbrev deleted_answer :
    (E : Type 0) {V : Type 0}
    → Result (OrchError E) (Unit {0}) × Orchestrator × V
    → Outcome E × Orchestrator × V
deleted_answer E (r, o, v) =
    (elim r [ err e ↦ reply 404 (orch_error e) | ok _ ↦ reply 200 deleted ], o, v)

other_than_empty : (s : String) → s ≢ "" → (s == "") ≡ false
other_than_empty s named = ground (arith, string_comparable.same_iff s "")

module _ {E V : Type 0} (rt : Runtime E V) (init_agent : String → Table String String → V → V)
    (rfc3339 : Time → String) (agent : AgentRequest → V → Option AgentAnswer × V)
    (encode : Body E → String) (parses : String → Bool) (decode : String → Option Fields) where
  handler_keyed :
      (key : String) (req : Request) (o : Orchestrator) (v : V)
      → handler rt init_agent rfc3339 agent key
          (record { x_api_key = key; authorization = "" })
          req
          o
          v
        ≡ cors rt init_agent rfc3339 agent req o v
  unfolding handler presented_key
  handler_keyed key req o v = ground (arith, ==_refl key)

  abbrev pub ask :
      Client
      → String
      → Time
      → HttpRequest
      → Orchestrator × V
      → Option HttpAnswer × (Orchestrator × V)
  ask c = host rt init_agent rfc3339 agent encode c.api_key c.base_url

  -- What the machine makes of what Create has done.
  abbrev pub told :
      GitVmMachine
      → Result (OrchError E) VmInstance × Orchestrator × V
      → Result MachineError (Unit {0}) × GitVmMachine × (Orchestrator × V)
  told m (err e, o, v) =
      (err (failed (returned "POST" "/v1/vms" 500 (encode (orch_error e)))), m, (o, v))
  told m (ok vm, o, v) = (ok tt, record m { vm_id = vm.id; state = running }, (o, v))

  ask-start :
      (c : Client) (uuid : String) (now : Time) (fields : Fields) (o : Orchestrator) (v : V)
      → ask c uuid now (request_of c "POST" "/v1/vms" (json fields)) (o, v)
        ≡ shown rt init_agent rfc3339 agent encode c.api_key c.base_url
            (Handlers.create_vm rt init_agent rfc3339 (some (requested fields)) uuid now o v)
  unfolding cors route request_of
  ask-start c uuid now fields o v =
      rw
        (
          routed-start c.base_url c.api_key uuid now fields,
          handler_keyed c.api_key (post_vms (some (requested fields)) uuid now) o v,
        )
        refl

  started-told :
      (m : GitVmMachine) (r : Result (OrchError E) VmInstance × Orchestrator × V)
      → IsJson E encode decode
      → let (a, w) =
          shown rt init_agent rfc3339 agent encode m.client.api_key m.client.base_url
            (created_answer rt init_agent rfc3339 r) in
        let (e, m') = started m (decoded decode (checked "POST" "/v1/vms" a)) in
        (e, m', w) ≡ told m r
  unfolding created_answer started checked
  started-told m (err e, o, v) read = refl
  started-told m (ok vm, o, v) read =
      let (fields, found, id) = read (to_vm_response rfc3339 vm) in rw (found, id) refl

  -- Over the server of a single host that has its URL and key, a machine that is not running
  -- starts as Create of the orchestrator does for its configuration: it gets the id of the new
  -- sandbox and is running, or keeps the 500 of the server as its error and stays as it was.
  pub start-create :
      (m : GitVmMachine) (uuid : String) (now : Time) (o : Orchestrator) (v : V)
      → IsJson E encode decode
      → parses (concat m.client.base_url "/v1/vms") ≡ true
      → is_running m.state ≡ false
      → start parses (ask m.client uuid now) decode m (o, v)
        ≡ told m (create rt init_agent o (wanted m.config) uuid now v)
  unfolding start Client.create_vm post_json do_request Handlers.create_vm
  start-create m uuid now o v read valid off =
      rw
        (
          off,
          start,
          valid,
          ask-start m.client uuid now (start_body m.config) o v,
          requested-start_body m.config,
        )
        (started-told m (create rt init_agent o (wanted m.config) uuid now v) read)

  -- What the machine makes of a DELETE.
  abbrev pub ended :
      GitVmMachine
      → Result (OrchError E) (Unit {0}) × Orchestrator × V
      → Result MachineError (Unit {0}) × GitVmMachine × (Orchestrator × V)
  ended m (err e, o, v) = (
    err (failed (returned "DELETE" (concat "/v1/vms/" m.vm_id) 404 (encode (orch_error e)))),
    m,
    (o, v),
  )
  ended m (ok r, o, v) = (ok tt, record m { state = stopped }, (o, v))

  ask-stop :
      (c : Client) (uuid id : String) (now : Time) (o : Orchestrator) (v : V)
      → Lacks b'/' id
      → ask c uuid now (request_of c "DELETE" (concat "/v1/vms/" id) no_payload) (o, v)
        ≡ shown rt init_agent rfc3339 agent encode c.api_key c.base_url
            (Handlers.delete_vm rt init_agent rfc3339 id o v)
  unfolding cors route request_of
  ask-stop c uuid id now o v plain =
      rw
        (
          routed-stop c.base_url c.api_key uuid id now plain,
          handler_keyed c.api_key (delete_one id) o v,
        )
        refl

  stopped-ended :
      (m : GitVmMachine) (r : Result (OrchError E) (Unit {0}) × Orchestrator × V)
      → let (a, w) =
          shown rt init_agent rfc3339 agent encode m.client.api_key m.client.base_url
            (deleted_answer E r) in
        let (e, m') =
          stopped_with m (mapped (λ b. tt) (checked "DELETE" (concat "/v1/vms/" m.vm_id) a)) in
        (e, m', w) ≡ ended m r
  unfolding stopped_with checked
  stopped-ended m (err e, o, v) = refl
  stopped-ended m (ok r, o, v) = refl

  pub stop-delete_vm :
      (m : GitVmMachine) (uuid : String) (now : Time) (o : Orchestrator) (v : V)
      → parses (concat m.client.base_url (concat "/v1/vms/" m.vm_id)) ≡ true
      → m.vm_id ≢ ""
      → Lacks b'/' m.vm_id
      → stop parses (ask m.client uuid now) decode m (o, v)
        ≡ ended m (delete_vm rt init_agent o m.vm_id v)
  unfolding stop Client.delete_vm do_request Handlers.delete_vm
  stop-delete_vm m uuid now o v valid named plain =
      rw (other_than_empty m.vm_id named, stop, valid, ask-stop m.client uuid m.vm_id now o v plain)
        (stopped-ended m (delete_vm rt init_agent o m.vm_id v))
