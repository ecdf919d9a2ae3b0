-- ===== src/Orchestrator/Transitions.antt =====
-- `Pause` and `Resume` of orchestrator/orchestrator.go, exactly.
use gitvm.Base.{
  string_comparable, ◌≡◌, String, true, false, Option, none, some, Result, ok, err, arith, inl, inr,
  Option-cases,
}
use gitvm.Base.Table.{Table, insert-insert, insert-lookup, lookup-insert_self}
use gitvm.Runtime.{State, running, paused, is_running, Runtime}
use gitvm.Orchestrator.Store.{VmInstance, get, put}
use gitvm.Orchestrator.Calls.{
  Config, Orchestrator, OrchError, not_found, not_running, runtime_failed, set_state, pause, resume,
}
use gitvm.Orchestrator.Valid.{IsValid}

-- What `Pause` returns for the entry that it finds.
abbrev pub IsPause :
    {E W : Type 0}
    → Runtime E W
    → Orchestrator
    → String
    → W
    → Option VmInstance
    → Result (OrchError E) (Unit {0}) × Orchestrator × W
    → Type 0
IsPause rt o id w none r = r ≡ (err (not_found id), o, w)
IsPause rt o id w (some vm) (r, o', w') = elim (is_running vm.state) [
  | false ↦ (r ≡ err (not_running id vm.state)) × (o' ≡ o) × (w' ≡ w)
  | true ↦ (w' ≡ (rt.pause id w).1) × (elim (rt.pause id w).0 [
    | err e ↦ (r ≡ err (runtime_failed e)) × (o' ≡ o)
    | ok _ ↦ (r ≡ ok tt) × (o' ≡ record o { store = put (record vm { state = paused }) o.store })
  ])
]

module _ {E W : Type 0} (rt : Runtime E W) (init_agent : String → Table String String → W → W) where
  -- Pause succeeds exactly when the sandbox is there and running and the runtime pauses it, and
  -- then only its state changes; any failure leaves the store as it was.
  pub pause-IsPause :
      (o : Orchestrator) (id : String) (w : W)
      → IsPause rt o id w (get id o.store) (pause rt init_agent o id w)
  unfolding pause set_state
  pause-IsPause o id w = ground arith

  set_state-ok :
      (o o' : Orchestrator) (vm : VmInstance) (s : State) (r : Result E (Unit {0}) × W) (w' : W)
      → set_state rt init_agent o vm s r ≡ (ok tt, o', w')
      → o' ≡ record o { store = put (record vm { state = s }) o.store }
  unfolding set_state
  set_state-ok o o' vm s (err e, w) w' h = cc
  set_state-ok o o' vm s (ok u, w) w' h = ground arith

  pause-ok :
      (o o' : Orchestrator) (id : String) (w w' : W)
      → pause rt init_agent o id w ≡ (ok tt, o', w')
      → (vm : VmInstance) × (get id o.store ≡ some vm)
        × (vm.state ≡ running)
        × (o' ≡ record o { store = put (record vm { state = paused }) o.store })
  unfolding pause set_state
  pause-ok o o' id w w' h = elim (Option-cases (get id o.store)) [
    | inl missing ↦ absurd (ground arith)
    | inr (vm, found) ↦ (vm, found, ground arith, ground arith)
  ]

  resume-ok :
      (o o' : Orchestrator) (id : String) (w w' : W)
      → resume rt init_agent o id w ≡ (ok tt, o', w')
      → (vm : VmInstance) × (get id o.store ≡ some vm)
        × (vm.state ≡ paused)
        × (o' ≡ record o { store = put (record vm { state = running }) o.store })
  unfolding resume set_state
  resume-ok o o' id w w' h = elim (Option-cases (get id o.store)) [
    | inl missing ↦ absurd (ground arith)
    | inr (vm, found) ↦ (vm, found, ground arith, ground arith)
  ]

  -- A sandbox that is paused and then resumed, both with success, leaves a well-formed
  -- orchestrator as it was at first.
  pub resume-pause :
      (config : Config) (o o₁ o₂ : Orchestrator) (id : String) (w w₁ w₂ w₃ : W)
      → IsValid config o
      → pause rt init_agent o id w ≡ (ok tt, o₁, w₁)
      → resume rt init_agent o₁ id w₂ ≡ (ok tt, o₂, w₃)
      → o₂ ≡ o
  unfolding get put
  resume-pause config o o₁ o₂ id w w₁ w₂ w₃ v h k =
      let (vm, found, live, paused_store) = pause-ok o o₁ id w w₁ h in
      let (vm', found', _, resumed) = resume-ok o₁ o₂ id w₂ w₃ k in
      let own = (v.entries id vm found).0 in
      ground (
        arith,
        lookup-insert_self id (record vm { state = paused }) o.store,
        insert-insert id (record vm { state = running }) (record vm { state = paused }) o.store,
        insert-lookup id vm o.store,
      )
