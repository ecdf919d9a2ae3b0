-- ===== src/Sdk/Calls.antt =====
-- sdk/machine.go and client.go: the methods of a machine as calls, what they may do to it, and which
-- requests they send.
use Prim.Native.String.{String}
use text.Mathlib.TextLemmas.{append_assoc}
use gitvm.Base.{
  ◌≡◌, ap, ◌⊎◌, inl, inr, refl, Bool, true, false, Option, none, some, List, Result, ok, err,
  concat, Bool-cases, ◌==◌, string_comparable,
}
use gitvm.Sdk.Client.{
  Client, Fields, Payload, no_payload, json, bytes, text_at, text_or, exec_body, HttpRequest,
  HttpAnswer, ClientError, ExecuteOptions, request_of, checked, do_request, post_json, get_json,
  create_vm, delete_vm, exec,
}
use gitvm.Sdk.Client as Client
use gitvm.Sdk.Machine.{
  GitVmMachine, running, paused, stopped, MachineError, already_running, not_running, failed,
  in_client, start_body, is_running, started, stopped_with, if_running, start, stop, pause, resume,
  execute, read_file, write_file, list_files,
}

pub data Call : Type 0 where
  starts pauses resumes stops : Call
  executes : String → Option ExecuteOptions → Call
  reads lists : String → Call
  writes : String → String → Call

-- The calls that use the VM.
abbrev pub is_use : Call → Bool
is_use starts = false
is_use pauses = false
is_use resumes = false
is_use stops = false
is_use _ = true

-- A call with the error that it returns changes one machine into another.
pub data Moves (m : GitVmMachine) : Call → Option MachineError → GitVmMachine → Type 0 where
  fails : (c : Call) (e : MachineError) → Moves m c (some e) m
  boots :
      (id : String)
      → is_running m.state ≡ false
      → Moves m starts none (record m { vm_id = id; state = running })
  halts : Moves m pauses none (record m { state = paused })
  continues : Moves m resumes none (record m { state = running })
  ends : Moves m stops none (record m { state = stopped })
  uses : (c : Call) → is_use c ≡ true → is_running m.state ≡ true → Moves m c none m

abbrev error_of : {A : Type 0} → Result MachineError A → Option MachineError
error_of (ok a) = none
error_of (err e) = some e

started-Moves :
    (m : GitVmMachine) (r : Result ClientError Fields)
    → is_running m.state ≡ false
    → Moves m starts (error_of (started m r).0) (started m r).1
unfolding started
started-Moves m (err e) off = fails starts (failed e)
started-Moves m (ok resp) off = boots (text_or m.vm_id (text_at "id" resp)) off

stopped_with-Moves :
    (m : GitVmMachine) (r : Result ClientError (Unit {0}))
    → Moves m stops (error_of (stopped_with m r).0) (stopped_with m r).1
unfolding stopped_with
stopped_with-Moves m (err e) = fails stops (failed e)
stopped_with-Moves m (ok r) = ends

module _ {W : Type 0} (parses : String → Bool) (ask : HttpRequest → W → Option HttpAnswer × W)
    (decode : String → Option Fields) (query_escape : String → String)
    (names : String → Option (List String)) where
  abbrev beside :
      {A : Type 0}
      → GitVmMachine
      → Result MachineError A × W
      → Option MachineError × GitVmMachine × W
  beside m (r, w) = (error_of r, m, w)

  unfoldable pub step : Call → GitVmMachine → W → Option MachineError × GitVmMachine × W
  unfolding start stop pause resume execute read_file write_file list_files
  step starts m w = let (r, m', w') = start parses ask decode m w in (error_of r, m', w')
  step pauses m w = let (r, m') = pause m in (error_of r, m', w)
  step resumes m w = let (r, m') = resume m in (error_of r, m', w)
  step stops m w = let (r, m', w') = stop parses ask decode m w in (error_of r, m', w')
  step (executes command opts) m w = beside m (execute parses ask decode m command opts w)
  step (reads path) m w = beside m (read_file parses ask decode query_escape m path w)
  step (lists path) m w = beside m (list_files parses ask decode query_escape names m path w)
  step (writes path content) m w =
      beside m (write_file parses ask decode query_escape m path content w)

  if_running-Moves :
      {A : Type 0} (c : Call) (m : GitVmMachine) (call : W → Result ClientError A × W) (w : W)
      → is_use c ≡ true
      → Moves m c (error_of (if_running m call w).0) m
  unfolding if_running
  if_running-Moves {A = A} c m call w use_ = elim (Bool-cases (is_running m.state)) [
    | inl on ↦ rw (on, if_running) (done (call w).0 on)
    | inr off ↦ rw (off, if_running) (fails c (not_running m.state))
  ]
    where
      done :
          (r : Result ClientError A)
          → is_running m.state ≡ true
          → Moves m c (error_of (in_client r)) m
      done (ok a) on = uses c use_ on
      done (err e) on = fails c (failed e)

  -- A call of a machine that returns an error leaves it as it was; one that succeeds moves it as
  -- its lifecycle has it: Start from any state but running to running, Pause to paused, Resume to
  -- running and Stop to stopped, and the others succeed only when it is running and leave it as it
  -- is.
  pub step-Moves :
      (c : Call) (m : GitVmMachine) (w : W) → let (e, m', w') = step c m w in Moves m c e m'
  unfolding step start stop pause resume execute read_file write_file list_files
  step-Moves starts m w = elim (Bool-cases (is_running m.state)) [
    | inl on ↦ rw (on, start) (fails starts already_running)
    | inr off ↦
        rw (off, start)
          (started-Moves m (create_vm parses ask decode m.client (start_body m.config) w).0 off)
  ]
  step-Moves pauses m w = halts
  step-Moves resumes m w = continues
  step-Moves stops m w = elim (Bool-cases (m.vm_id == "")) [
    | inl unnamed ↦ rw (unnamed, stop) ends
    | inr named ↦
        rw (named, stop) (stopped_with-Moves m (delete_vm parses ask m.client m.vm_id w).0)
  ]
  step-Moves (executes command opts) m w =
      if_running-Moves (executes command opts) m
        (exec parses ask decode m.client m.vm_id command opts) w refl
  step-Moves (reads path) m w =
      if_running-Moves (reads path) m
        (Client.read_file parses ask query_escape m.client m.vm_id path) w refl
  step-Moves (lists path) m w =
      if_running-Moves (lists path) m
        (Client.list_files parses ask query_escape names m.client m.vm_id path) w refl
  step-Moves (writes path content) m w =
      if_running-Moves (writes path content) m
        (Client.write_file parses ask query_escape m.client m.vm_id path content) w refl

  -- The world after at most one request, to the server of the client and with its key.
  abbrev pub IsOneRequest : Client → W → W → Type 0
  IsOneRequest c w w' =
      (w' ≡ w)
      ⊎ ((req : HttpRequest) × (rest : String) × (req.url
            ≡ concat c.base_url (concat "/v1/vms" rest))
          × (req.x_api_key ≡ c.api_key)
          × (w' ≡ (ask req w).1))

  do_request-IsOneRequest :
      (c : Client) (method path rest : String) (payload : Payload) (w : W)
      → path ≡ concat "/v1/vms" rest
      → IsOneRequest c w (do_request parses ask c method path payload w).1
  unfolding do_request request_of
  do_request-IsOneRequest c method path rest payload w under =
      elim (Bool-cases (parses (concat c.base_url path))) [
        | inl sent ↦
            rw (sent, do_request)
              (inr
                (request_of c method path payload, rest, ap (concat c.base_url) under, refl, refl))
        | inr kept ↦ rw (kept, do_request) (inl refl)
      ]

  one_vm-IsOneRequest :
      (c : Client) (method rest : String) (payload : Payload) (w : W)
      → IsOneRequest c w (do_request parses ask c method (concat "/v1/vms/" rest) payload w).1
  one_vm-IsOneRequest c method rest payload w =
      do_request-IsOneRequest c method (concat "/v1/vms/" rest) (concat "/" rest) payload w
        (append_assoc "/v1/vms" "/" rest)

  if_running-IsOneRequest :
      {A : Type 0} (m : GitVmMachine) (call : W → Result ClientError A × W) (w : W)
      → IsOneRequest m.client w (call w).1
      → IsOneRequest m.client w (if_running m call w).1
  unfolding if_running
  if_running-IsOneRequest m call w one = elim (Bool-cases (is_running m.state)) [
    | inl on ↦ rw (on, if_running) one
    | inr off ↦ rw (off, if_running) (inl refl)
  ]

  -- Each call of a machine sends at most one request, under /v1/vms of the URL of its client and
  -- with the key of that client.
  pub step-IsOneRequest :
      (c : Call) (m : GitVmMachine) (w : W) → IsOneRequest m.client w (step c m w).2
  unfolding step start stop pause resume create_vm delete_vm post_json get_json exec execute
      read_file write_file list_files Client.read_file Client.write_file Client.list_files
  step-IsOneRequest starts m w = elim (Bool-cases (is_running m.state)) [
    | inl on ↦ rw (on, start) (inl refl)
    | inr off ↦
        rw (off, start)
          (do_request-IsOneRequest m.client "POST" "/v1/vms" "" (json (start_body m.config)) w refl)
  ]
  step-IsOneRequest pauses m w = inl refl
  step-IsOneRequest resumes m w = inl refl
  step-IsOneRequest stops m w = elim (Bool-cases (m.vm_id == "")) [
    | inl unnamed ↦ rw (unnamed, stop) (inl refl)
    | inr named ↦ rw (named, stop) (one_vm-IsOneRequest m.client "DELETE" m.vm_id no_payload w)
  ]
  step-IsOneRequest (executes command opts) m w =
      if_running-IsOneRequest m (exec parses ask decode m.client m.vm_id command opts) w (
        one_vm-IsOneRequest m.client "POST" (concat m.vm_id "/exec") (json (exec_body command opts))
          w)
  step-IsOneRequest (reads path) m w =
      if_running-IsOneRequest m (Client.read_file parses ask query_escape m.client m.vm_id path) w (
        one_vm-IsOneRequest m.client "GET"
          (concat m.vm_id (concat "/files" (concat "?path=" (query_escape path)))) no_payload w)
  step-IsOneRequest (lists path) m w =
      if_running-IsOneRequest m
        (Client.list_files parses ask query_escape names m.client m.vm_id path) w
        (one_vm-IsOneRequest m.client "GET"
          (concat m.vm_id (concat "/files/list" (concat "?path=" (query_escape path)))) no_payload
          w)
  step-IsOneRequest (writes path content) m w =
      if_running-IsOneRequest m
        (Client.write_file parses ask query_escape m.client m.vm_id path content) w
        (one_vm-IsOneRequest m.client "PUT"
          (concat m.vm_id (concat "/files" (concat "?path=" (query_escape path)))) (bytes content)
          w)
