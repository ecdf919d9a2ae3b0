-- ===== src/Orchestrator/Expiry.antt =====
-- The loops of orchestrator/cleanup.go: what `cleanupExpired` and `Shutdown` leave in the store.
use gitvm.Base.{
  ◌≡◌, refl, String, Bool, true, false, Option, none, some, List, [], ◌∷◌, arith, if◌then◌else◌,
  ◌==◌, string_comparable, ◌||◌,
}
use gitvm.Base.Clock.{Time, has_passed}
use gitvm.Base.Table.{Table, lookup, values, IsMap, Every, Every-head, Every-tail, lookup-remove}
use gitvm.Runtime.{Runtime}
use gitvm.Orchestrator.Store.{VmInstance, VmStore, get, delete, list, expired, expired_among}
use gitvm.Orchestrator.Calls.{
  Config, Orchestrator, delete_vm, delete_each, cleanup_expired, shutdown,
}
use gitvm.Orchestrator.Valid.{IsEntry, IsValid}

-- Whether a list of instances names an id.
abbrev named : String → List VmInstance → Bool
named j [] = false
named j (vm ∷ vms) = vm.id == j || named j vms

-- What is left of an entry when those that have expired are taken out.
abbrev pub unless_expired : Time → Option VmInstance → Option VmInstance
unless_expired now none = none
unless_expired now (some vm) = if has_passed now vm.expires_at then none else some vm

named-values :
    (j : String) (m : VmStore)
    → IsMap m
    → Every IsEntry m
    → named j (values m) ≡ (elim (lookup j m) [ none ↦ false | some _ ↦ true ])
unfolding lookup values
named-values j [] d h = refl
named-values j ((k, vm) ∷ m) d h =
    ground
      (arith, named-values j m d.1 (Every-tail IsEntry k vm m d.0 h), Every-head IsEntry k vm m h)

named-expired_among :
    (now : Time) (j : String) (m : VmStore)
    → IsMap m
    → Every IsEntry m
    → named j (expired_among now (values m))
      ≡ (elim (lookup j m) [ none ↦ false | some vm ↦ has_passed now vm.expires_at ])
unfolding lookup values expired_among
named-expired_among now j [] d h = refl
named-expired_among now j ((k, vm) ∷ m) d h = ground (
  arith,
  named-expired_among now j m d.1 (Every-tail IsEntry k vm m d.0 h),
  Every-head IsEntry k vm m h,
  string_comparable.same_iff k j,
)

module _ {E W : Type 0} (rt : Runtime E W) (init_agent : String → Table String String → W → W) where
  -- `Delete` takes out its sandbox and no other, whether or not the runtime destroys it.
  pub delete_vm-get :
      (o : Orchestrator) (id j : String) (w : W)
      → get j (delete_vm rt init_agent o id w).1.store ≡ (if id == j then none else get j o.store)
  unfolding delete_vm get delete
  delete_vm-get o id j w =
      ground (arith, lookup-remove id j o.store, string_comparable.same_iff id j)

  delete_each-get :
      (vms : List VmInstance) (o : Orchestrator) (j : String) (w : W)
      → get j (delete_each rt init_agent vms o w).0.store
        ≡ (if named j vms then none else get j o.store)
  unfolding delete_each
  delete_each-get [] o j w = refl
  delete_each-get (vm ∷ vms) o j w =
      let (_, o', w') = delete_vm rt init_agent o vm.id w in
      ground (arith, delete_each-get vms o' j w', delete_vm-get o vm.id j w)

  -- After cleanupExpired a well-formed store holds just the instances whose time has not passed.
  pub cleanup_expired-get :
      (config : Config) (now : Time) (o : Orchestrator) (j : String) (w : W)
      → IsValid config o
      → get j (cleanup_expired rt init_agent now o w).0.store ≡ unless_expired now (get j o.store)
  unfolding cleanup_expired expired get
  cleanup_expired-get config now o j w v = ground (
    arith,
    delete_each-get (expired now o.store) o j w,
    named-expired_among now j o.store v.distinct v.entries,
  )

  -- After Shutdown a well-formed store is empty.
  pub shutdown-get :
      (config : Config) (o : Orchestrator) (j : String) (w : W)
      → IsValid config o
      → get j (shutdown rt init_agent o w).0.store ≡ none
  unfolding shutdown list get
  shutdown-get config o j w v =
      ground
        (arith, delete_each-get (list o.store) o j w, named-values j o.store v.distinct v.entries)
