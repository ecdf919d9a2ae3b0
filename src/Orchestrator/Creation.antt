-- ===== src/Orchestrator/Creation.antt =====
-- What `Create` of orchestrator/orchestrator.go returns and stores, and when the sandbox expires.
use gitvm.Base.{
  ℕ, ◌+◌, ◌*◌, ◌^◌, ◌≤◌, ◌<◌, ◌≡◌, ◌≢◌, refl, String, true, some, Result, ok, ℤ, inl, inr, ap, sym,
  ◌∙◌, ◌↔◌, err, pos, positive_or, arith, if◌then◌else◌, Bool-cases, ◌==◌, string_comparable, leb,
  tests,
}
use mathlib.Core.Bool.{false≢true}
use gitvm.Base.Clock.{Time, add_seconds, add_seconds_exact, has_passed}
use gitvm.Base.Table.{Table, lookup-insert, size}
use gitvm.Runtime.{running, Runtime, Sandbox, CreateOpts}
use gitvm.Orchestrator.Store.{VmInstance, get, put, count}
use gitvm.Orchestrator.Calls.{
  Config, CreateRequest, Orchestrator, OrchError, max_reached, create_failed, sandbox_id,
  or_default, create_opts, new_instance, finish_create, create,
}

-- What the backend is asked for.
abbrev asked : String → CreateRequest → CreateOpts
asked id req = record {
  id = id;
  template = if req.template == "" then "base" else req.template;
  vcpus = pos (positive_or 1 req.vcpus);
  memory_mb = pos (positive_or 512 req.memory_mb);
  env_vars = req.env_vars;
}

-- What `Create` returns with `o`: at the limit it is refused and the runtime is not called; an error
-- of the runtime is passed on; otherwise the new sandbox alone is added to the store.
abbrev pub IsCreation :
    {E W : Type 0}
    → Runtime E W
    → Orchestrator
    → CreateRequest
    → String
    → W
    → Result (OrchError E) VmInstance × Orchestrator × W
    → Type 0
IsCreation rt o req id w (err (max_reached n), o', w') =
    (o.config.max_vms ≤ size o.store) × (n ≡ o.config.max_vms) × (o' ≡ o) × (w' ≡ w)
IsCreation rt o req id w (err (create_failed e), o', w') =
    (size o.store < o.config.max_vms) × ((rt.create (asked id req) w).0 ≡ err e) × (o' ≡ o)
IsCreation rt o req id w (err _, o', w') = ⊥
IsCreation rt o req id w (ok vm, o', w') =
    (size o.store < o.config.max_vms)
    × (vm.id ≡ id)
    × (vm.state ≡ running)
    × (0 < vm.vcpus)
    × (0 < vm.memory_mb)
    × (vm.template ≢ "")
    × ((j : String) → get j o'.store ≡ (if id == j then some vm else get j o.store))
    × (o'.config ≡ o.config)
    × (vm.template ≡ (if req.template == "" then "base" else req.template))
    × (vm.vcpus ≡ positive_or 1 req.vcpus)
    × (vm.memory_mb ≡ positive_or 512 req.memory_mb)
    × (vm.metadata ≡ req.metadata)
    × (sb : Sandbox) × ((rt.create (asked id req) w).0 ≡ ok sb)
    × (vm.agent_url ≡ sb.agent_url)
    × (vm.guest_ip ≡ sb.ip)

positive_or_pos : (d : ℕ) (n : ℤ) → 0 < d → 0 < positive_or d n
positive_or_pos d n h = ground arith

positive_or_lem : (d n : ℕ) → 0 < n → positive_or d (pos n) ≡ n
positive_or_lem d n h = ground arith

or_default-ne-empty : (s : String) → or_default "base" s ≢ ""
or_default-ne-empty s = elim (Bool-cases (s == "")) [
  | inl blank ↦ rw blank (λ h. cc)
  | inr filled ↦ rw filled (λ h. false≢true (sym filled ∙ (string_comparable.same_iff s "").1 h))
]

module _ {E W : Type 0} (rt : Runtime E W) (init_agent : String → Table String String → W → W) where
  finish_create-IsCreation :
      (o : Orchestrator) (req : CreateRequest) (id : String) (now : Time) (w : W)
      (r : Result E Sandbox × W)
      → size o.store < o.config.max_vms
      → r ≡ rt.create (asked id req) w
      → IsCreation rt o req id w (finish_create rt init_agent o req id now r)
  unfolding finish_create new_instance put get
  finish_create-IsCreation o req id now w (err e, w') room same =
      (room, sym (ap (λ q. q.0) same), refl)
  finish_create-IsCreation o req id now w (ok sb, w') room same = (
    room,
    refl,
    refl,
    positive_or_pos 1 req.vcpus (omega arith),
    positive_or_pos 512 req.memory_mb (omega arith),
    or_default-ne-empty req.template,
    λ j. lookup-insert id j _ o.store,
    refl,
    refl,
    refl,
    refl,
    refl,
    sb,
    sym (ap (λ q. q.0) same),
    refl,
    refl,
  )

  -- On each of its branches Create does what it should: at the limit it fails and asks nothing of
  -- the runtime; where the runtime fails on what is asked for, it fails by that error and the
  -- store stays; where the runtime makes a sandbox, this is entered under the new id, running,
  -- with the address of the runtime and with the template, processors, memory and metadata of the
  -- request, or the defaults for those not given, and no other entry changes.
  pub create-IsCreation :
      (o : Orchestrator) (req : CreateRequest) (uuid : String) (now : Time) (w : W)
      → IsCreation rt o req (sandbox_id uuid) w (create rt init_agent o req uuid now w)
  unfolding create count create_opts
  create-IsCreation o req uuid now w = elim (Bool-cases (leb o.config.max_vms (count o.store))) [
    | inl full ↦ rw (full, create) (omega tests, refl, refl, refl)
    | inr room ↦
        rw (room, create)
          (finish_create-IsCreation o req (sandbox_id uuid) now w _ (ground arith) refl)
  ]

-- A sandbox whose timeout is given, positive and at most 9223372036 seconds has expired exactly
-- when that time has passed since its creation.
pub new_instance_expiry :
    (config : Config) (name id : String) (req : CreateRequest) (sb : Sandbox) (now later : Time)
    (seconds : ℕ)
    → req.timeout ≡ pos seconds
    → 0 < seconds
    → seconds ≤ 9223372036
    → (has_passed later (new_instance config name id req sb now).expires_at ≡ true)
      ↔ (now + seconds * 1000000000 < later)
unfolding new_instance has_passed
new_instance_expiry config name id req sb now later seconds e h k = ground (
  arith,
  ap (positive_or config.default_timeout_sec) e,
  positive_or_lem config.default_timeout_sec seconds,
  add_seconds_exact now seconds,
)

-- A sandbox whose timeout lies between 9223372037 and 18446744073 seconds, made later than 2 ^ 63
-- nanoseconds after year 1, has expired from the moment that it is created.
pub new_instance_overflow :
    (config : Config) (name id : String) (req : CreateRequest) (sb : Sandbox) (now later : Time)
    (seconds : ℕ)
    → req.timeout ≡ pos seconds
    → 9223372037 ≤ seconds
    → seconds ≤ 18446744073
    → 2 ^ 63 < now
    → now ≤ later
    → has_passed later (new_instance config name id req sb now).expires_at ≡ true
unfolding new_instance has_passed add_seconds
new_instance_overflow config name id req sb now later seconds e lo hi past after_now = ground (
  arith,
  ap (positive_or config.default_timeout_sec) e,
  positive_or_lem config.default_timeout_sec seconds,
)
