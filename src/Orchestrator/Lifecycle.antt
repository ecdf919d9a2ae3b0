-- ===== src/Orchestrator/Lifecycle.antt =====
-- The life of one sandbox under the calls of orchestrator/orchestrator.go: absent, running, paused.
use gitvm.Base.{
  ◌≡◌, ◌⊎◌, inl, inr, refl, String, Option, none, some, Result, ok, err, ℤ, arith, if◌then◌else◌,
  Bool-cases, Option-cases, ◌==◌, string_comparable, ap, leb,
}
use gitvm.Base.Clock.{Time}
use gitvm.Base.Table.{Table, lookup-insert}
use gitvm.Runtime.{State, running, paused, Runtime, Sandbox}
use gitvm.Orchestrator.Store.{VmInstance, get, put, count}
use gitvm.Orchestrator.Calls.{
  Config, CreateRequest, Orchestrator, sandbox_id, new_instance, restored_instance, finish_create,
  create, set_state, pause, resume, finish_restore, restore,
}
use gitvm.Orchestrator.Valid.{IsValid}
use gitvm.Orchestrator.Valid.Calls.{
  Call, creates, deletes, pauses, resumes, snapshots, restores, cleans, shuts_down, step,
  snapshot-store,
}
use gitvm.Orchestrator.Expiry.{delete_vm-get, cleanup_expired-get, shutdown-get}

abbrev pub state_of : String → Orchestrator → Option State
state_of j o = elim (get j o.store) [ none ↦ none | some vm ↦ some vm.state ]

-- What a call may do to the sandbox `j`, from the state `s` to the state `t`.
abbrev pub Effect : Call → String → Option State → Option State → Type 0
Effect (creates req uuid now) j s t = (t ≡ s) ⊎ ((j ≡ sandbox_id uuid) × (t ≡ some running))
Effect (deletes id) j s t = t ≡ (if id == j then none else s)
Effect (pauses id) j s t = (t ≡ s) ⊎ ((j ≡ id) × (s ≡ some running) × (t ≡ some paused))
Effect (resumes id) j s t = (t ≡ s) ⊎ ((j ≡ id) × (s ≡ some paused) × (t ≡ some running))
Effect (snapshots id snapshot_id) j s t = t ≡ s
Effect (restores snapshot_id timeout uuid now) j s t =
    (t ≡ s) ⊎ ((j ≡ sandbox_id uuid) × (t ≡ some running))
Effect (cleans now) j s t = (t ≡ s) ⊎ (t ≡ none)
Effect shuts_down j s t = t ≡ none

put-state_of :
    (j : String) (vm : VmInstance) (o : Orchestrator)
    → state_of j (record o { store = put vm o.store })
      ≡ (if vm.id == j then some vm.state else state_of j o)
unfolding put get
put-state_of j vm o = ground (arith, lookup-insert vm.id j vm o.store)

module _ {E W : Type 0} (rt : Runtime E W) (init_agent : String → Table String String → W → W) where
  finish_create-Effect :
      (o : Orchestrator) (req : CreateRequest) (id : String) (now : Time) (r : Result E Sandbox × W)
      (j : String)
      → let t = state_of j (finish_create rt init_agent o req id now r).1 in
        (t ≡ state_of j o) ⊎ ((j ≡ id) × (t ≡ some running))
  unfolding finish_create new_instance
  finish_create-Effect o req id now (err e, w) j = inl refl
  finish_create-Effect o req id now (ok sb, w) j =
      let vm = new_instance o.config rt.name id req sb now in
      ground (arith, put-state_of j vm o, string_comparable.same_iff id j)

  create-Effect :
      (o : Orchestrator) (req : CreateRequest) (uuid : String) (now : Time) (w : W) (j : String)
      → Effect
          (creates req uuid now)
          j
          (state_of j o)
          (state_of j (create rt init_agent o req uuid now w).1)
  unfolding create
  create-Effect o req uuid now w j = elim (Bool-cases (leb o.config.max_vms (count o.store))) [
    | inl full ↦ rw (full, create) (inl refl)
    | inr room ↦ rw (room, create) (finish_create-Effect o req _ now _ j)
  ]

  finish_restore-Effect :
      (o : Orchestrator) (snapshot_id id : String) (timeout : ℤ) (now : Time)
      (r : Result E Sandbox × W) (j : String)
      → let t = state_of j (finish_restore rt init_agent o snapshot_id id timeout now r).1 in
        (t ≡ state_of j o) ⊎ ((j ≡ id) × (t ≡ some running))
  unfolding finish_restore restored_instance
  finish_restore-Effect o snapshot_id id timeout now (err e, w) j = inl refl
  finish_restore-Effect o snapshot_id id timeout now (ok sb, w) j =
      let vm = restored_instance o.config rt.name id snapshot_id timeout sb now in
      ground (arith, put-state_of j vm o, string_comparable.same_iff id j)

  restore-Effect :
      (o : Orchestrator) (snapshot_id : String) (timeout : ℤ) (uuid : String) (now : Time) (w : W)
      (j : String)
      → Effect
          (restores snapshot_id timeout uuid now)
          j
          (state_of j o)
          (state_of j (restore rt init_agent o snapshot_id timeout uuid now w).1)
  unfolding restore
  restore-Effect o snapshot_id timeout uuid now w j =
      elim (Bool-cases (leb o.config.max_vms (count o.store))) [
        | inl full ↦ rw (full, restore) (inl refl)
        | inr room ↦ rw (room, restore) (finish_restore-Effect o snapshot_id _ timeout now _ j)
      ]

  set_state-Effect :
      (o : Orchestrator) (vm : VmInstance) (s : State) (r : Result E (Unit {0}) × W) (j : String)
      → let t = state_of j (set_state rt init_agent o vm s r).1 in
        (t ≡ state_of j o) ⊎ ((j ≡ vm.id) × (t ≡ some s))
  unfolding set_state
  set_state-Effect o vm s (err e, w) j = inl refl
  set_state-Effect o vm s (ok u, w) j =
      ground (arith, put-state_of j (record vm { state = s }) o, string_comparable.same_iff vm.id j)

  pause-Effect :
      (config : Config) (o : Orchestrator) (id : String) (w : W) (j : String)
      → IsValid config o
      → Effect (pauses id) j (state_of j o) (state_of j (pause rt init_agent o id w).1)
  unfolding pause get
  pause-Effect config o id w j v = elim (Option-cases (get id o.store)) [
    | inl missing ↦ rw (missing, pause) (inl refl)
    | inr (vm, found) ↦
        let own = (v.entries id vm found).0 in
        ground (arith, own, set_state-Effect o vm paused (rt.pause id w) j)
  ]

  resume-Effect :
      (config : Config) (o : Orchestrator) (id : String) (w : W) (j : String)
      → IsValid config o
      → Effect (resumes id) j (state_of j o) (state_of j (resume rt init_agent o id w).1)
  unfolding resume get
  resume-Effect config o id w j v = elim (Option-cases (get id o.store)) [
    | inl missing ↦ rw (missing, resume) (inl refl)
    | inr (vm, found) ↦
        let own = (v.entries id vm found).0 in
        ground (arith, own, set_state-Effect o vm running (rt.resume id w) j)
  ]

  -- In a well-formed orchestrator each call moves each sandbox as the lifecycle allows: a new or
  -- restored one starts running under its own id, only a running one is paused and only a paused
  -- one is resumed, by the call that names it, Delete ends just the one that it names,
  -- cleanupExpired and Shutdown end or keep.
  pub step-Effect :
      (config : Config) (c : Call) (o : Orchestrator) (w : W) (j : String)
      → IsValid config o
      → Effect c j (state_of j o) (state_of j (step rt init_agent c o w).0)
  unfolding step
  step-Effect config (creates req uuid now) o w j v = create-Effect o req uuid now w j
  step-Effect config (deletes id) o w j v = ground (arith, delete_vm-get rt init_agent o id j w)
  step-Effect config (pauses id) o w j v = pause-Effect config o id w j v
  step-Effect config (resumes id) o w j v = resume-Effect config o id w j v
  step-Effect config (snapshots id snapshot_id) o w j v =
      ap (state_of j) (snapshot-store rt init_agent config o id snapshot_id w)
  step-Effect config (restores snapshot_id timeout uuid now) o w j v =
      restore-Effect o snapshot_id timeout uuid now w j
  step-Effect config (cleans now) o w j v =
      ground (arith, cleanup_expired-get rt init_agent config now o j w v)
  step-Effect config shuts_down o w j v = ground (arith, shutdown-get rt init_agent config o j w v)
