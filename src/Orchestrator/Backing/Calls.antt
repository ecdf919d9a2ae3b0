-- ===== src/Orchestrator/Backing/Calls.antt =====
-- The calls of orchestrator/orchestrator.go and orchestrator/cleanup.go, and the two tables.
use gitvm.Base.{
  ◌≡◌, String, Bool, true, some, ℤ, arith, Bool-cases, Option-cases, inl, inr, string_comparable,
  leb,
}
use gitvm.Base.Clock.{Time}
use gitvm.Base.Table.{Table, lookup}
use gitvm.Runtime.{running, paused, is_running, is_paused, Runtime}
use gitvm.Orchestrator.Store.{VmInstance, get, list, expired, count}
use gitvm.Orchestrator.Calls.{
  Config, CreateRequest, Orchestrator, sandbox_id, create_opts, create, pause, resume, snapshot,
  restore, cleanup_expired, shutdown,
}
use gitvm.Orchestrator.Valid.{IsValid}
use gitvm.Orchestrator.Valid.Calls.{
  Call, creates, deletes, pauses, resumes, snapshots, restores, cleans, shuts_down, step,
}
use gitvm.Orchestrator.Backing.{
  is_stored, IsTracking, InSync, finish_create-InSync, finish_restore-InSync, delete_vm-InSync,
  delete_each-InSync, set_state-InSync,
}

module _ {E W : Type 0} (rt : Runtime E W) (init_agent : String → Table String String → W → W)
    (has : String → W → Bool) (t : IsTracking rt init_agent has) where
  create-InSync :
      (o : Orchestrator) (req : CreateRequest) (uuid : String) (now : Time) (w : W)
      → InSync rt init_agent has t o w
      → InSync rt init_agent has t
          (create rt init_agent o req uuid now w).1
          (create rt init_agent o req uuid now w).2
  unfolding create create_opts
  create-InSync o req uuid now w s = elim (Bool-cases (leb o.config.max_vms (count o.store))) [
    | inl full ↦ rw (full, create) s
    | inr room ↦
        rw (room, create)
          (finish_create-InSync rt init_agent has t o req (sandbox_id uuid) now w _ s
            (t.creates_one (create_opts (sandbox_id uuid) req) w))
  ]

  restore-InSync :
      (o : Orchestrator) (snapshot_id : String) (timeout : ℤ) (uuid : String) (now : Time) (w : W)
      → InSync rt init_agent has t o w
      → InSync rt init_agent has t
          (restore rt init_agent o snapshot_id timeout uuid now w).1
          (restore rt init_agent o snapshot_id timeout uuid now w).2
  unfolding restore
  restore-InSync o snapshot_id timeout uuid now w s =
      elim (Bool-cases (leb o.config.max_vms (count o.store))) [
        | inl full ↦ rw (full, restore) s
        | inr room ↦
            rw (room, restore)
              (finish_restore-InSync rt init_agent has t o snapshot_id (sandbox_id uuid) timeout now
                w _ s (t.restores_one snapshot_id (sandbox_id uuid) w))
      ]

  snapshot-InSync :
      (o : Orchestrator) (id snapshot_id : String) (w : W)
      → InSync rt init_agent has t o w
      → InSync rt init_agent has t
          (snapshot rt init_agent o id snapshot_id w).1
          (snapshot rt init_agent o id snapshot_id w).2
  unfolding snapshot
  snapshot-InSync o id snapshot_id w s j = ground (arith, s j, t.snapshot_keeps id snapshot_id w j)

  found-is_stored :
      (config : Config) (o : Orchestrator) (id : String) (vm : VmInstance)
      → IsValid config o
      → get id o.store ≡ some vm
      → is_stored vm.id o ≡ true
  unfolding get lookup
  found-is_stored config o id vm v found = ground (arith, found, (v.entries id vm found).0)

  pause-InSync :
      (config : Config) (o : Orchestrator) (id : String) (w : W)
      → IsValid config o
      → InSync rt init_agent has t o w
      → InSync rt init_agent has t (pause rt init_agent o id w).1 (pause rt init_agent o id w).2
  unfolding pause
  pause-InSync config o id w v s = elim (Option-cases (get id o.store)) [
    | inl missing ↦ rw (missing, pause) s
    | inr (vm, found) ↦ elim (Bool-cases (is_running vm.state)) [
      | inl live ↦
          rw (found, live, pause)
            (set_state-InSync rt init_agent has t o vm paused w _ s
              (found-is_stored config o id vm v found) (t.pause_keeps id w))
      | inr other ↦ rw (found, other, pause) s
    ]
  ]

  resume-InSync :
      (config : Config) (o : Orchestrator) (id : String) (w : W)
      → IsValid config o
      → InSync rt init_agent has t o w
      → InSync rt init_agent has t (resume rt init_agent o id w).1 (resume rt init_agent o id w).2
  unfolding resume
  resume-InSync config o id w v s = elim (Option-cases (get id o.store)) [
    | inl missing ↦ rw (missing, resume) s
    | inr (vm, found) ↦ elim (Bool-cases (is_paused vm.state)) [
      | inl live ↦
          rw (found, live, resume)
            (set_state-InSync rt init_agent has t o vm running w _ s
              (found-is_stored config o id vm v found) (t.resume_keeps id w))
      | inr other ↦ rw (found, other, resume) s
    ]
  ]

  -- Over any backend whose calls start a sandbox when they succeed and leave none when they fail,
  -- end just the one that Destroy names, and otherwise start and end none, each call of a
  -- well-formed orchestrator keeps the store in step with the sandboxes that the backend runs.
  pub step-InSync :
      (config : Config) (c : Call) (o : Orchestrator) (w : W)
      → IsValid config o
      → InSync rt init_agent has t o w
      → InSync rt init_agent has t (step rt init_agent c o w).0 (step rt init_agent c o w).1
  unfolding step cleanup_expired shutdown
  step-InSync config (creates req uuid now) o w v s = create-InSync o req uuid now w s
  step-InSync config (deletes id) o w v s = delete_vm-InSync rt init_agent has t o id w s
  step-InSync config (pauses id) o w v s = pause-InSync config o id w v s
  step-InSync config (resumes id) o w v s = resume-InSync config o id w v s
  step-InSync config (snapshots id snapshot_id) o w v s = snapshot-InSync o id snapshot_id w s
  step-InSync config (restores snapshot_id timeout uuid now) o w v s =
      restore-InSync o snapshot_id timeout uuid now w s
  step-InSync config (cleans now) o w v s =
      delete_each-InSync rt init_agent has t (expired now o.store) o w s
  step-InSync config shuts_down o w v s =
      delete_each-InSync rt init_agent has t (list o.store) o w s
