-- ===== src/Orchestrator/Tests.antt =====
-- Runs of the orchestrator over a backend that always succeeds, and the theorems about it at
-- concrete inputs.
use gitvm.Base.{
  ◌+◌, ◌*◌, ◌^◌, ◌≡◌, refl, true, [], ◌∷◌, ok, err, pos, negsuc, arith, string_comparable,
}
use gitvm.Base.Clock.{add_seconds, has_passed}
use gitvm.Base.Table.{lookup, insert, remove, values}
use gitvm.Runtime.{running, paused, Sandbox}
use gitvm.Runtime.Fake.{fake, no_init}
use gitvm.Orchestrator.Store.{put, get, delete, list, expired_among, expired, count}
use gitvm.Orchestrator.Calls.{
  Config, CreateRequest, Orchestrator, OrchError, new_orchestrator, sandbox_id, new_instance,
  create_opts, init_with, finish_create, create, delete_vm, set_state, pause, resume, delete_each,
  cleanup_expired, shutdown,
}
use gitvm.Orchestrator.Valid.{IsValid, new_orchestrator-IsValid}
use gitvm.Orchestrator.Valid.Calls.{pauses, step, create-IsValid}
use gitvm.Orchestrator.Runs.{step-IsValid, run_all}
use gitvm.Orchestrator.Lifecycle.{Effect, state_of, step-Effect}
use gitvm.Orchestrator.Expiry.{unless_expired, cleanup_expired-get}
use gitvm.Orchestrator.Creation.{IsCreation, create-IsCreation, new_instance_overflow}

abbrev small : Config
small = record { max_vms = 1; default_timeout_sec = 300 }

abbrev plain : CreateRequest
plain = record {
  template = "";
  vcpus = pos 0;
  memory_mb = negsuc 4;
  timeout = pos 0;
  metadata = [];
  env_vars = [];
}

orchestrator : Unit {0}
unfolding create delete_vm pause resume cleanup_expired shutdown delete_each finish_create
    new_instance create_opts init_with set_state get put delete count expired expired_among list
    lookup insert remove values add_seconds has_passed step run_all
orchestrator = tt

abbrev one_vm : Orchestrator
one_vm = (create fake no_init (new_orchestrator small) plain "00c0ffee" (2 ^ 64) []).1

defaults :
    (create fake no_init (new_orchestrator small) plain "00c0ffee" (2 ^ 64) []).0
    ≡ ok (record {
      id = "sb-00c0ffee";
      state = running;
      runtime = "fake";
      template = "base";
      vcpus = 1;
      memory_mb = 512;
      created_at = 2 ^ 64;
      expires_at = 2 ^ 64 + 300 * 1000000000;
      metadata = [];
      agent_url = "http://10.0.0.2:49983";
      guest_ip = "10.0.0.2";
    })
unfolding orchestrator
defaults = refl

paused_twice :
    (pause fake no_init (pause fake no_init one_vm "sb-00c0ffee" []).1 "sb-00c0ffee" []).0
    ≡ err (OrchError.not_running "sb-00c0ffee" paused)
unfolding orchestrator
paused_twice = refl

cleaned_up :
    (cleanup_expired fake no_init (2 ^ 64 + 300 * 1000000000 + 1) one_vm []).1
    ≡ "destroy sb-00c0ffee" ∷ []
unfolding orchestrator
cleaned_up = refl

one_vm-IsValid : IsValid small one_vm
one_vm-IsValid =
    create-IsValid fake no_init small (new_orchestrator small) plain "00c0ffee" (2 ^ 64) []
      (new_orchestrator-IsValid small)

step-IsValid_example : IsValid small (step fake no_init (pauses "sb-00c0ffee") one_vm []).0
step-IsValid_example =
    step-IsValid fake no_init small (pauses "sb-00c0ffee") one_vm [] one_vm-IsValid

step-Effect_example :
    Effect
      (pauses "sb-00c0ffee")
      "sb-00c0ffee"
      (state_of "sb-00c0ffee" one_vm)
      (state_of "sb-00c0ffee" (step fake no_init (pauses "sb-00c0ffee") one_vm []).0)
step-Effect_example =
    step-Effect fake no_init small (pauses "sb-00c0ffee") one_vm [] "sb-00c0ffee" one_vm-IsValid

cleanup_expired-get_example :
    get "sb-00c0ffee" (cleanup_expired fake no_init (2 ^ 65) one_vm []).0.store
    ≡ unless_expired (2 ^ 65) (get "sb-00c0ffee" one_vm.store)
cleanup_expired-get_example =
    cleanup_expired-get fake no_init small (2 ^ 65) one_vm "sb-00c0ffee" [] one_vm-IsValid

create-IsCreation_example :
    IsCreation fake one_vm plain
      (sandbox_id "1")
      []
      (create fake no_init one_vm plain "1" (2 ^ 64) [])
create-IsCreation_example = create-IsCreation fake no_init one_vm plain "1" (2 ^ 64) []

abbrev fake_sandbox : Sandbox
fake_sandbox = record {
  id = "sb-1";
  state = running;
  runtime = "fake";
  ip = "10.0.0.2";
  agent_url = "http://10.0.0.2:49983";
}

abbrev minute : CreateRequest
minute = record plain { timeout = pos 60 }

abbrev centuries : CreateRequest
centuries = record plain { timeout = pos 10000000000 }

new_instance_overflow_example :
    has_passed
      (2 ^ 64)
      (new_instance small "fake" "sb-1" centuries fake_sandbox (2 ^ 64)).expires_at
    ≡ true
new_instance_overflow_example =
    new_instance_overflow small "fake" "sb-1" centuries fake_sandbox (2 ^ 64) (2 ^ 64) 10000000000
      refl (omega arith) (omega arith) (omega arith) (omega arith)
