-- ===== src/Sdk/Lost.antt =====
-- sdk/machine.go over the server of a single host: which sandboxes are left when a machine is stopped.
use Prim.Native.String.{String}
use text.Mathlib.Text.{starts_with}
use text.Mathlib.TextPositions.{starts_with-append}
use gitvm.Base.{
  ◌≡◌, ◌≢◌, refl, sym, ap, subst, ◌∙◌, Bool, true, false, Option, none, some, Result, ok, err,
  concat, arith, if◌then◌else◌, ◌==◌, ==_refl, string_comparable,
}
use gitvm.Base.Clock.{Time}
use gitvm.Base.Table.{Table}
use gitvm.Base.Scan.{Lacks}
use gitvm.Base.Scan.Cuts.{Lacks-concat}
use gitvm.Http.{AgentRequest, AgentAnswer}
use gitvm.Runtime.{Runtime}
use gitvm.Orchestrator.Store.{VmInstance, get}
use gitvm.Orchestrator.Calls.{Orchestrator, OrchError, sandbox_id, create, delete_vm}
use gitvm.Orchestrator.Creation.{IsCreation, create-IsCreation}
use gitvm.Orchestrator.Expiry.{delete_vm-get}
use gitvm.Api.Handlers.{Body}
use gitvm.Sdk.Client.{Client, HttpRequest, HttpAnswer, Fields}
use gitvm.Sdk.Machine.{
  GitVmMachine, MachineError, running, paused, stopped, is_running, start, pause, stop,
}
use gitvm.Sdk.Body.{wanted}
use gitvm.Sdk.Hosted.{IsJson, ask, told, ended, start-create, stop-delete_vm}

sandbox_id_ne_empty : (uuid : String) → sandbox_id uuid ≢ ""
sandbox_id_ne_empty uuid e =
    let f : starts_with "" "sb-" ≡ true =
      ap (λ (s : String). starts_with s "sb-") (sym e) ∙ starts_with-append "sb-" uuid in
    cc f

remaining :
    (id j : String) (before after : Option VmInstance) (vm : VmInstance)
    → id ≢ j
    → before ≡ some vm
    → after ≡ (if id == j then none else before)
    → after ≢ none
remaining id j before after vm apart found kept gone =
    ground (arith, string_comparable.same_iff id j)

module _ {E V : Type 0} (rt : Runtime E V) (init_agent : String → Table String String → V → V)
    (rfc3339 : Time → String) (agent : AgentRequest → V → Option AgentAnswer × V)
    (encode : Body E → String) (parses : String → Bool) (decode : String → Option Fields) where
  -- The requests of a client, to the server that has its URL and its key.
  abbrev over :
      Client
      → String
      → Time
      → HttpRequest
      → Orchestrator × V
      → Option HttpAnswer × (Orchestrator × V)
  over = ask rt init_agent rfc3339 agent encode parses decode

  -- A machine that has been started under an id: the store has gained its sandbox.
  abbrev IsStarted :
      GitVmMachine
      → String
      → Orchestrator
      → Result MachineError (Unit {0}) × GitVmMachine × (Orchestrator × V)
      → Type 0
  IsStarted m id o (r, m', (o', v')) =
      (m' ≡ record m { vm_id = id; state = running })
      × ((vm : VmInstance) × ((j : String)
            → get j o'.store ≡ (if id == j then some vm else get j o.store)))

  told-IsStarted :
      (m : GitVmMachine) (uuid : String) (now : Time) (o : Orchestrator) (v : V)
      (r : Result (OrchError E) VmInstance × Orchestrator × V)
      → IsCreation rt o (wanted m.config) (sandbox_id uuid) v r
      → (told rt init_agent rfc3339 agent encode parses decode m r).0 ≡ ok tt
      → IsStarted m (sandbox_id uuid) o (told rt init_agent rfc3339 agent encode parses decode m r)
  told-IsStarted m uuid now o v (err e, o', v') made done = cc done
  told-IsStarted m uuid now o v (ok vm, o', v') made done =
      (ap (λ (s : String). record m { vm_id = s; state = running }) made.1, (vm, made.6))

  start-IsStarted :
      (m : GitVmMachine) (uuid : String) (now : Time) (o : Orchestrator) (v : V)
      → IsJson E encode decode
      → parses (concat m.client.base_url "/v1/vms") ≡ true
      → is_running m.state ≡ false
      → let r = start parses (over m.client uuid now) decode m (o, v) in
        r.0 ≡ ok tt → IsStarted m (sandbox_id uuid) o r
  start-IsStarted m uuid now o v read valid off =
      rw
        (start-create rt init_agent rfc3339 agent encode parses decode m uuid now o v read valid
          off)
        (told-IsStarted m uuid now o v (create rt init_agent o (wanted m.config) uuid now v)
          (create-IsCreation rt init_agent o (wanted m.config) uuid now v))

  -- A machine that has been stopped: its sandbox alone is gone from the store.
  abbrev pub IsStopped :
      GitVmMachine
      → Orchestrator
      → Result MachineError (Unit {0}) × GitVmMachine × (Orchestrator × V)
      → Type 0
  IsStopped m o (r, m', (o', v')) =
      (r ≡ ok tt)
      × (m' ≡ record m { state = stopped })
      × ((j : String) → get j o'.store ≡ (if m.vm_id == j then none else get j o.store))

  ended-IsStopped :
      (m : GitVmMachine) (o : Orchestrator) (r : Result (OrchError E) (Unit {0}) × Orchestrator × V)
      → r.0 ≡ ok tt
      → ((j : String) → get j r.1.store ≡ (if m.vm_id == j then none else get j o.store))
      → IsStopped m o (ended rt init_agent rfc3339 agent encode parses decode m r)
  ended-IsStopped m o (err e, o', v') done gone = cc done
  ended-IsStopped m o (ok r, o', v') done gone = (refl, refl, gone)

  delete_vm_found :
      (o : Orchestrator) (id : String) (v : V) (vm : VmInstance)
      → get id o.store ≡ some vm
      → (delete_vm rt init_agent o id v).0 ≡ ok tt
  unfolding delete_vm
  delete_vm_found o id v vm found = rw (found, delete_vm) refl

  stop-IsStopped :
      (m : GitVmMachine) (uuid : String) (now : Time) (o : Orchestrator) (v : V) (vm : VmInstance)
      → parses (concat m.client.base_url (concat "/v1/vms/" m.vm_id)) ≡ true
      → m.vm_id ≢ ""
      → Lacks b'/' m.vm_id
      → get m.vm_id o.store ≡ some vm
      → IsStopped m o (stop parses (over m.client uuid now) decode m (o, v))
  stop-IsStopped m uuid now o v vm valid named plain found =
      rw
        (stop-delete_vm rt init_agent rfc3339 agent encode parses decode m uuid now o v valid named
          plain)
        (ended-IsStopped m o (delete_vm rt init_agent o m.vm_id v)
          (delete_vm_found o m.vm_id v vm found) (λ j. delete_vm-get rt init_agent o m.vm_id j v))

  -- What is left when a started machine is stopped.
  abbrev IsEnded :
      String
      → Orchestrator
      → Result MachineError (Unit {0}) × GitVmMachine × (Orchestrator × V)
      → Type 0
  IsEnded id o (r, m', (o', v')) =
      (r ≡ ok tt)
      × (m'.state ≡ stopped)
      × (m'.vm_id ≡ id)
      × ((j : String) → get j o'.store ≡ (if id == j then none else get j o.store))

  stop-IsEnded :
      (m : GitVmMachine) (c : Client) (uuid unused : String) (later : Time) (o : Orchestrator)
      (s : Result MachineError (Unit {0}) × GitVmMachine × (Orchestrator × V))
      → parses (concat m.client.base_url (concat "/v1/vms/" (sandbox_id uuid))) ≡ true
      → Lacks b'/' uuid
      → c ≡ m.client
      → IsStarted m (sandbox_id uuid) o s
      → IsEnded (sandbox_id uuid) o (stop parses (over c unused later) decode s.1 s.2)
  stop-IsEnded m c uuid unused later o (r, m₁, (o₁, v₁)) valid plain same (is, (vm, gained)) =
      let m' = record m { vm_id = sandbox_id uuid; state = running } in
      let (ended_ok, halted, gone) =
        stop-IsStopped m' unused later o₁ v₁ vm valid (sandbox_id_ne_empty uuid)
          (Lacks-concat b'/' "sb-" uuid (refl, (refl, (refl, tt))) plain)
          (ground (arith, gained (sandbox_id uuid), ==_refl (sandbox_id uuid))) in
      rw (is, same)
        (
          ended_ok,
          ap (λ (n : GitVmMachine). n.state) halted,
          ap (λ (n : GitVmMachine). n.vm_id) halted,
          λ j. ground (arith, gone j, gained j),
        )

  -- Over a single host, Stop after a Start that succeeds returns without an error and leaves the
  -- store as it was before the Start, but that the id of the new sandbox has no entry.
  pub stop-start :
      (m : GitVmMachine) (uuid unused : String) (now later : Time) (o : Orchestrator) (v : V)
      → IsJson E encode decode
      → parses (concat m.client.base_url "/v1/vms") ≡ true
      → parses (concat m.client.base_url (concat "/v1/vms/" (sandbox_id uuid))) ≡ true
      → is_running m.state ≡ false
      → Lacks b'/' uuid
      → let (r, m₁, w) = start parses (over m.client uuid now) decode m (o, v) in
        r ≡ ok tt
        → let (r₂, m₂, (o₂, v₂)) = stop parses (over m.client unused later) decode m₁ w in
          (r₂ ≡ ok tt)
          × (m₂.state ≡ stopped)
          × (m₂.vm_id ≡ sandbox_id uuid)
          × ((j : String) → get j o₂.store ≡ (if sandbox_id uuid == j then none else get j o.store))
  stop-start m uuid unused now later o v read valid valid_vm off plain done =
      stop-IsEnded m m.client uuid unused later o
        (start parses (over m.client uuid now) decode m (o, v)) valid_vm plain refl
        (start-IsStarted m uuid now o v read valid off done)

  -- What is left by Pause, a Start that succeeds, and Stop.
  abbrev HasLeft :
      Client → String → String → String → Time → Time → GitVmMachine → Orchestrator × V → Type 0
  HasLeft c uuid other unused later last m₁ w₁ =
      let (r', m₃, w₃) = start parses (over c other later) decode (pause m₁).1 w₁ in
      let (r'', m₄, (o₄, v₄)) = stop parses (over c unused last) decode m₃ w₃ in
      r' ≡ ok tt
      → (r'' ≡ ok tt)
        × (m₄.state ≡ stopped)
        × (m₄.vm_id ≢ sandbox_id uuid)
        × (get (sandbox_id uuid) o₄.store ≢ none)

  paused-HasLeft :
      (m : GitVmMachine) (uuid other unused : String) (later last : Time) (o₁ : Orchestrator)
      (v₁ : V) (vm : VmInstance)
      → IsJson E encode decode
      → parses (concat m.client.base_url "/v1/vms") ≡ true
      → parses (concat m.client.base_url (concat "/v1/vms/" (sandbox_id other))) ≡ true
      → Lacks b'/' other
      → sandbox_id other ≢ sandbox_id uuid
      → get (sandbox_id uuid) o₁.store ≡ some vm
      → HasLeft m.client uuid other unused later last
          (record m { vm_id = sandbox_id uuid; state = running })
          (o₁, v₁)
  unfolding pause is_running
  paused-HasLeft m uuid other unused later last o₁ v₁ vm read valid valid_vm plain apart found
        again =
      let m₂ = record m { vm_id = sandbox_id uuid; state = paused } in
      let s = start parses (over m.client other later) decode m₂ (o₁, v₁) in
      let started = start-IsStarted m₂ other later o₁ v₁ read valid refl again in
      let (done, halted, own, rest) =
        stop-IsEnded m₂ m.client other unused last o₁ s valid_vm plain refl started in
      (
        done,
        halted,
        λ e. apart (sym own ∙ e),
        λ e.
            remaining (sandbox_id other) (sandbox_id uuid) _ _ vm apart found
              (rest (sandbox_id uuid)) e,
      )

  -- A machine that is started over a single host, paused, started again and stopped, where both
  -- starts succeed, ends as stopped while the sandbox of its first start is still in the store
  -- under an id that the machine no longer has.
  pub start-pause :
      (m : GitVmMachine) (uuid other unused : String) (now later last : Time) (o : Orchestrator)
      (v : V)
      → IsJson E encode decode
      → parses (concat m.client.base_url "/v1/vms") ≡ true
      → parses (concat m.client.base_url (concat "/v1/vms/" (sandbox_id other))) ≡ true
      → is_running m.state ≡ false
      → Lacks b'/' other
      → sandbox_id other ≢ sandbox_id uuid
      → let (r, m₁, (o₁, v₁)) = start parses (over m.client uuid now) decode m (o, v) in
        let m₂ = (pause m₁).1 in
        let (r', m₃, w) = start parses (over m.client other later) decode m₂ (o₁, v₁) in
        r ≡ ok tt
        → r' ≡ ok tt
        → let (r'', m₄, (o₄, v₄)) = stop parses (over m.client unused last) decode m₃ w in
          (r'' ≡ ok tt)
          × (m₄.state ≡ stopped)
          × (m₄.vm_id ≢ sandbox_id uuid)
          × (get (sandbox_id uuid) o₄.store ≢ none)
  start-pause m uuid other unused now later last o v read valid valid_vm off plain apart done
        again =
      let (is, (vm, gained)) = start-IsStarted m uuid now o v read valid off done in
      subst
        (λ (n : GitVmMachine).
          HasLeft m.client uuid other unused later last n
            (start parses (over m.client uuid now) decode m (o, v)).2)
        (sym is)
        (paused-HasLeft m uuid other unused later last _ _ vm read valid valid_vm plain apart
          (ground (arith, gained (sandbox_id uuid), ==_refl (sandbox_id uuid))))
        again
