-- ===== src/Runtime/Fake.antt =====
-- A backend for the tests: every call succeeds.
use gitvm.Base.{String, List, [], ◌∷◌, Result, ok, concat}
use gitvm.Base.Table.{Table}
use gitvm.Runtime.{running, Sandbox, Runtime}

-- The backend's state is the list of what it was asked to do, newest first.
abbrev log : String → String → List String → Result String (Unit {0}) × List String
log verb id w = (ok tt, concat verb id ∷ w)

abbrev made : String → List String → Result String Sandbox × List String
made id w = (
  ok (record {
    id = id;
    state = running;
    runtime = "fake";
    ip = "10.0.0.2";
    agent_url = "http://10.0.0.2:49983";
  }),
  concat "create " id ∷ w,
)

abbrev pub fake : Runtime String (List String)
fake = record {
  name = "fake";
  create = λ opts w. made opts.id w;
  start = log "start ";
  stop = log "stop ";
  destroy = log "destroy ";
  pause = log "pause ";
  resume = log "resume ";
  get = made;
  list = λ w. (ok [], w);
  agent_url = λ id w. (ok "http://10.0.0.2:49983", w);
  snapshot = λ id snapshot_id w. log "snapshot " id w;
  restore = λ snapshot_id id w. made id w;
  delete_snapshot = log "rmi ";
  list_snapshots = λ id w. (ok [], w);
}

abbrev pub no_init : String → Table String String → List String → List String
no_init url vars w = w
