-- ===== src/Orchestrator/Valid.antt =====
-- The well-formedness of the orchestrator, and what a change of the store does to it.
pub mod Calls
use gitvm.Base.{
  ℕ, ◌≤◌, ◌<◌, ◌+◌, ◌≡◌, ◌≢◌, ◌⊎◌, inl, inr, refl, String, Bool, true, false, Option, none, some,
  List, [], ◌∷◌, Result, ok, err, ℤ, arith, if◌then◌else◌, Bool-cases, Option-cases,
  string_comparable, leb, subst, sym, ap, tests,
}
use gitvm.Base.Clock.{Time}
use gitvm.Base.Table.{
  Table, lookup, insert, remove, size, IsMap, insert-IsMap, remove-IsMap, Every, Every-insert,
  Every-remove, size-insert, size-remove,
}
use gitvm.Runtime.{State, running, paused, Runtime, Sandbox}
use gitvm.Orchestrator.Store.{VmInstance, VmStore, put, get, delete, count}
use gitvm.Orchestrator.Calls.{
  Config, CreateRequest, Orchestrator, OrchError, new_orchestrator, sandbox_id, new_instance,
  restored_instance, finish_create, create, delete_vm, set_state, pause, resume, snapshot,
  finish_restore, restore, delete_each, cleanup_expired, shutdown,
}

-- An entry is stored under its own id, and is running or paused.
abbrev pub IsEntry : String → VmInstance → Type 0
IsEntry id vm = (vm.id ≡ id) × ((vm.state ≡ running) ⊎ (vm.state ≡ paused))

pub record IsValid (config : Config) (o : Orchestrator) : Type 0 where
  pub same_config : o.config ≡ config
  pub distinct : IsMap o.store
  pub entries : Every IsEntry o.store
  pub bounded : size o.store ≤ config.max_vms

pub new_orchestrator-IsValid : (config : Config) → IsValid config (new_orchestrator config)
unfolding lookup
new_orchestrator-IsValid config = record {
  same_config = refl;
  distinct = tt;
  entries = λ k v e. cc;
  bounded = omega arith;
}

-- A new instance goes in while there is room.
put-IsValid :
    (config : Config) (o : Orchestrator) (vm : VmInstance)
    → IsValid config o
    → IsEntry vm.id vm
    → size o.store < config.max_vms
    → IsValid config (record o { store = put vm o.store })
unfolding put
put-IsValid config o vm v entry room = record {
  same_config = v.same_config;
  distinct = insert-IsMap vm.id vm o.store v.distinct;
  entries = Every-insert IsEntry vm.id vm o.store entry v.entries;
  bounded = ground (arith, size-insert vm.id vm o.store);
}

-- An instance that is there is written back with another state.
pub update-IsValid :
    (config : Config) (o : Orchestrator) (id : String) (vm : VmInstance) (s : State)
    → IsValid config o
    → get id o.store ≡ some vm
    → (s ≡ running) ⊎ (s ≡ paused)
    → IsValid config (record o { store = put (record vm { state = s }) o.store })
unfolding put get
update-IsValid config o id vm s v found live =
    let same = (v.entries id vm found).0 in
    record {
      same_config = v.same_config;
      distinct = insert-IsMap vm.id (record vm { state = s }) o.store v.distinct;
      entries = Every-insert IsEntry vm.id (record vm { state = s }) o.store (refl, live) v.entries;
      bounded =
          ground (arith, v.bounded, same, size-insert vm.id (record vm { state = s }) o.store);
    }

remove-IsValid :
    (config : Config) (o : Orchestrator) (id : String)
    → IsValid config o
    → IsValid config (record o { store = delete id o.store })
unfolding delete
remove-IsValid config o id v = record {
  same_config = v.same_config;
  distinct = remove-IsMap id o.store v.distinct;
  entries = Every-remove IsEntry id o.store v.entries;
  bounded = ground (arith, v.bounded, size-remove id o.store v.distinct);
}
