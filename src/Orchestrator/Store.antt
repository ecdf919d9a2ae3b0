-- ===== src/Orchestrator/Store.antt =====
-- orchestrator/state.go: the in-memory store of sandbox instances. Each method holds the store's
-- lock while it runs. The store holds pointers; a field written through such a pointer is a `put`
-- of the changed instance.
use gitvm.Base.{ℕ, String, Option, List, [], ◌∷◌, if◌then◌else◌, string_comparable}
use gitvm.Base.Clock.{Time, has_passed}
use gitvm.Base.Table.{Table, lookup, insert, remove, size, values}
use gitvm.Runtime.{State}

pub record VmInstance : Type 0 where
  pub id : String
  pub state : State
  pub runtime : String
  pub template : String
  pub vcpus : ℕ
  pub memory_mb : ℕ
  pub created_at : Time
  pub expires_at : Time
  pub metadata : Table String String
  pub agent_url : String
  pub guest_ip : String

abbrev pub VmStore : Type 0
VmStore = Table String VmInstance

abbrev pub new_vm_store : VmStore
new_vm_store = []

unfoldable pub put : VmInstance → VmStore → VmStore
put instance_ s = insert instance_.id instance_ s

unfoldable pub get : String → VmStore → Option VmInstance
get id s = lookup id s

unfoldable pub delete : String → VmStore → VmStore
delete id s = remove id s

-- The order of the list is that of `range` over a map, which Go leaves open.
unfoldable pub list : VmStore → List VmInstance
list s = values s

-- One round of the loop of `Expired`.
unfoldable pub expired_among : Time → List VmInstance → List VmInstance
expired_among now [] = []
expired_among now (vm ∷ vms) =
    let rest = expired_among now vms in if has_passed now vm.expires_at then vm ∷ rest else rest

unfoldable pub expired : Time → VmStore → List VmInstance
unfolding expired_among
expired now s = expired_among now (values s)

unfoldable pub count : VmStore → ℕ
count s = size s
