-- ===== src/Orchestrator/Runs.antt =====
-- Whole histories of calls on an orchestrator.
use gitvm.Base.{◌≤◌, String, List, [], ◌∷◌}
use gitvm.Base.Table.{Table}
use gitvm.Runtime.{Runtime}
use gitvm.Orchestrator.Store.{count, expired, list}
use gitvm.Orchestrator.Calls.{Config, Orchestrator, new_orchestrator, cleanup_expired, shutdown}
use gitvm.Orchestrator.Valid.{IsValid, new_orchestrator-IsValid}
use gitvm.Orchestrator.Valid.Calls.{
  Call, creates, deletes, pauses, resumes, snapshots, restores, cleans, shuts_down, step,
  create-IsValid, delete_vm-IsValid, pause-IsValid, resume-IsValid, snapshot-store, restore-IsValid,
  delete_each-IsValid,
}

module _ {E W : Type 0} (rt : Runtime E W) (init_agent : String → Table String String → W → W) where
  -- Each call keeps the orchestrator well-formed: the keys of the store are the ids and occur
  -- once, every sandbox is running or paused, and there are at most MaxVMs of them.
  pub step-IsValid :
      (config : Config) (c : Call) (o : Orchestrator) (w : W)
      → IsValid config o
      → IsValid config (step rt init_agent c o w).0
  unfolding step cleanup_expired shutdown
  step-IsValid config (creates req uuid now) o w v =
      create-IsValid rt init_agent config o req uuid now w v
  step-IsValid config (deletes id) o w v = delete_vm-IsValid rt init_agent config o id w v
  step-IsValid config (pauses id) o w v = pause-IsValid rt init_agent config o id w v
  step-IsValid config (resumes id) o w v = resume-IsValid rt init_agent config o id w v
  step-IsValid config (snapshots id snapshot_id) o w v =
      rw (snapshot-store rt init_agent config o id snapshot_id w) v
  step-IsValid config (restores snapshot_id timeout uuid now) o w v =
      restore-IsValid rt init_agent config o snapshot_id timeout uuid now w v
  step-IsValid config (cleans now) o w v =
      delete_each-IsValid rt init_agent config (expired now o.store) o w v
  step-IsValid config shuts_down o w v =
      delete_each-IsValid rt init_agent config (list o.store) o w v

  unfoldable pub run_all : List Call → Orchestrator → W → Orchestrator × W
  run_all [] o w = (o, w)
  run_all (c ∷ cs) o w = run_all cs (step rt init_agent c o w).0 (step rt init_agent c o w).1

  pub run_all-IsValid :
      (config : Config) (cs : List Call) (o : Orchestrator) (w : W)
      → IsValid config o
      → IsValid config (run_all cs o w).0
  unfolding run_all
  run_all-IsValid config [] o w v = v
  run_all-IsValid config (c ∷ cs) o w v =
      run_all-IsValid config cs (step rt init_agent c o w).0 (step rt init_agent c o w).1
        (step-IsValid config c o w v)

  -- Whatever the calls and whatever the runtime answers, a new orchestrator never holds more than
  -- MaxVMs sandboxes.
  pub run_all-bound :
      (config : Config) (cs : List Call) (w : W)
      → count (run_all cs (new_orchestrator config) w).0.store ≤ config.max_vms
  unfolding count
  run_all-bound config cs w =
      (run_all-IsValid config cs (new_orchestrator config) w
        (new_orchestrator-IsValid config)).bounded
