-- ===== src/Api/Guarantees.antt =====
-- api/: what the server of a single host promises.

use Prim.Native.String.{String, len, slice}
use text.Mathlib.Text.{starts_with}
use text.Mathlib.TextEquality.{starts_with_iff}
use Prim.Native.String.len.{cons as len-cons}
use text.Mathlib.TextPositions.{len_utf8-pos, starts_with-append, len-append}
use gitvm.Base.{
  ◌≡◌, ◌≢◌, ◌⊎◌, inl, inr, refl, sym, ap, subst, ◌∙◌, true, false, ◌&&◌, ◌||◌, Option, none, some,
  Result, ok, err, arith, concat, ltb, ◌==◌, string_comparable, Bool-cases, ◌<◌,
}
use gitvm.Base.Scan.Cuts.{slice-concat}
use gitvm.Base.Clock.{Time}
use gitvm.Base.Table.{Table}
use gitvm.Http.{AgentRequest, AgentAnswer}
use gitvm.Runtime.{Runtime}
use gitvm.Orchestrator.Store.{VmInstance}
use gitvm.Orchestrator.Calls.{Config, Orchestrator, OrchError}
use gitvm.Orchestrator.Valid.{IsValid}
use gitvm.Orchestrator.Valid.Calls.{create-IsValid, delete_vm-IsValid}
use gitvm.Api.Handlers.{reply, unauthorized, created_answer, create_request, create_vm, delete_vm}
use gitvm.Api.Server.{
  Request, post_vms, get_vms, get_health, get_one, delete_one, post_exec, post_exec_stream,
  get_files, get_files_list, put_files, delete_files, post_mkdir, options, unrouted, path_of,
  Headers, presented_key, route, cors, handler,
}

-- No path of a sandbox is that of the health page.
v1_not_health : (rest : String) → (concat "/v1/vms" rest == "/health") ≡ false
v1_not_health rest = elim (Bool-cases (concat "/v1/vms" rest == "/health")) [
  | inr differ ↦ differ
  | inl same ↦
      let e : concat "/v1/vms" rest ≡ "/health" =
        (string_comparable.same_iff (concat "/v1/vms" rest) "/health").0 same in
      let f : starts_with "/health" "/v1/vms" ≡ true =
        ap (λ (s : String). starts_with s "/v1/vms") (sym e) ∙ starts_with-append "/v1/vms" rest in
      cc f
]

-- The requests under /v1.
abbrev pub IsVms : Request → Type 0
IsVms get_health = ⊥
IsVms (options path) = ⊥
IsVms (unrouted status path) = ⊥
IsVms _ = Unit {0}

path_of-IsVms : (req : Request) → IsVms req → (path_of req == "/health") ≡ false
unfolding path_of
path_of-IsVms (post_vms req uuid now) v = refl
path_of-IsVms get_vms v = refl
path_of-IsVms get_health v = absurd v
path_of-IsVms (get_one id) v = v1_not_health _
path_of-IsVms (delete_one id) v = v1_not_health _
path_of-IsVms (post_exec id body) v = v1_not_health _
path_of-IsVms (post_exec_stream id body) v = v1_not_health _
path_of-IsVms (get_files id query) v = v1_not_health _
path_of-IsVms (get_files_list id query) v = v1_not_health _
path_of-IsVms (put_files id query body) v = v1_not_health _
path_of-IsVms (delete_files id path) v = v1_not_health _
path_of-IsVms (post_mkdir id path) v = v1_not_health _
path_of-IsVms (options path) v = absurd v
path_of-IsVms (unrouted status path) v = absurd v

-- The ways to present a key.
abbrev pub Presents : Headers → String → Type 0
Presents h key =
    (h.x_api_key ≡ key)
    ⊎ ((h.x_api_key ≡ "") × ((h.authorization ≡ concat "Bearer " key) ⊎ (h.authorization ≡ key)))

concat-slice :
    (a : String) → starts_with a "Bearer " ≡ true → concat "Bearer " (slice a 7 (len a)) ≡ a
concat-slice a h =
    let (key, e) = (starts_with_iff a "Bearer ").0 h in
    subst (λ (s : String). concat "Bearer " (slice s 7 (len s)) ≡ s) e
      (ap (concat "Bearer ") (slice-concat "Bearer " key))

presented_key-Presents : (h : Headers) (key : String) → presented_key h ≡ key → Presents h key
unfolding presented_key
presented_key-Presents h key e = elim (Bool-cases (h.x_api_key == "")) [
  | inr named ↦ inl (ground arith)
  | inl empty ↦
      let none_named : h.x_api_key ≡ "" = (string_comparable.same_iff h.x_api_key "").0 empty in
      elim (Bool-cases (ltb 7 (len h.authorization) && starts_with h.authorization "Bearer ")) [
        | inr bare ↦ inr (none_named, inr (ground arith))
        | inl bearer ↦ inr (none_named, inl (ground (arith, concat-slice h.authorization)))
      ]
]

len_pos : (s : String) → s ≢ "" → 0 < len s
len_pos String.[] nonempty = absurd (nonempty refl)
len_pos (String.◌∷◌ c s) nonempty =
    let (k, e) = len_utf8-pos c in rw (len-cons c s, e) (omega arith)

presented_key-bearer :
    (h : Headers) (key : String)
    → key ≢ ""
    → h.x_api_key ≡ ""
    → h.authorization ≡ concat "Bearer " key
    → presented_key h ≡ key
unfolding presented_key
presented_key-bearer h key nonempty none_named bearer =
    let long : 0 < len key = len_pos key nonempty in
    rw (none_named, bearer, presented_key)
      (ground (
        arith,
        len-append "Bearer " key,
        starts_with-append "Bearer " key,
        slice-concat "Bearer " key,
      ))

module _ {E W : Type 0} (rt : Runtime E W) (init_agent : String → Table String String → W → W)
    (rfc3339 : Time → String) (agent : AgentRequest → W → Option AgentAnswer × W) where
  -- What the server of a host with a key makes of a request under /v1.
  pub record IsGuarded (key : String) (h : Headers) (req : Request) (o : Orchestrator) (w : W)
      : Type 0 where
    pub refuses :
        (handler rt init_agent rfc3339 agent key h req o w ≡ (reply 401 unauthorized, o, w))
        ⊎ Presents h key
    pub takes_key :
        h.x_api_key ≡ key
        → handler rt init_agent rfc3339 agent key h req o w
          ≡ route rt init_agent rfc3339 agent req o w
    pub takes_bearer :
        h.x_api_key ≡ ""
        → h.authorization ≡ concat "Bearer " key
        → handler rt init_agent rfc3339 agent key h req o w
          ≡ route rt init_agent rfc3339 agent req o w

  cors-IsVms :
      (req : Request) (o : Orchestrator) (w : W)
      → IsVms req
      → cors rt init_agent rfc3339 agent req o w ≡ route rt init_agent rfc3339 agent req o w
  unfolding cors
  cors-IsVms (options path) o w v = absurd v
  cors-IsVms (post_vms req uuid now) o w v = refl
  cors-IsVms get_vms o w v = refl
  cors-IsVms get_health o w v = refl
  cors-IsVms (get_one id) o w v = refl
  cors-IsVms (delete_one id) o w v = refl
  cors-IsVms (post_exec id body) o w v = refl
  cors-IsVms (post_exec_stream id body) o w v = refl
  cors-IsVms (get_files id query) o w v = refl
  cors-IsVms (get_files_list id query) o w v = refl
  cors-IsVms (put_files id query body) o w v = refl
  cors-IsVms (delete_files id path) o w v = refl
  cors-IsVms (post_mkdir id path) o w v = refl
  cors-IsVms (unrouted status path) o w v = refl

  handler-key :
      (key : String) (h : Headers) (req : Request) (o : Orchestrator) (w : W)
      → presented_key h ≡ key
      → handler rt init_agent rfc3339 agent key h req o w ≡ cors rt init_agent rfc3339 agent req o w
  unfolding handler
  handler-key key h req o w e = ground (arith, string_comparable.same_iff (presented_key h) key)

  presented_key-x_api_key :
      (h : Headers) (key : String) → key ≢ "" → h.x_api_key ≡ key → presented_key h ≡ key
  unfolding presented_key
  presented_key-x_api_key h key nonempty e =
      ground (arith, string_comparable.same_iff h.x_api_key "")

  handler-refuses :
      (key : String) (h : Headers) (req : Request) (o : Orchestrator) (w : W)
      → key ≢ ""
      → (path_of req == "/health") ≡ false
      → (handler rt init_agent rfc3339 agent key h req o w ≡ (reply 401 unauthorized, o, w))
        ⊎ Presents h key
  unfolding handler
  handler-refuses key h req o w nonempty closed = elim (Bool-cases (presented_key h == key)) [
    | inl same ↦
        inr
          (presented_key-Presents h key ((string_comparable.same_iff (presented_key h) key).0 same))
    | inr differ ↦ inl (ground (arith, string_comparable.same_iff key ""))
  ]

  -- A server with an API key answers a request under /v1 with 401 and changes nothing, unless the
  -- request presents the key: in X-API-KEY, or, where that is empty, in Authorization, behind
  -- Bearer or bare. A request with the key in X-API-KEY, or behind Bearer where X-API-KEY is
  -- empty, is answered as its route is.
  pub handler-IsGuarded :
      (key : String) (h : Headers) (req : Request) (o : Orchestrator) (w : W)
      → key ≢ ""
      → IsVms req
      → IsGuarded key h req o w
  handler-IsGuarded key h req o w nonempty v = record {
    refuses = handler-refuses key h req o w nonempty (path_of-IsVms req v);
    takes_key = λ e.
        handler-key key h req o w (presented_key-x_api_key h key nonempty e) ∙ cors-IsVms req o w v;
    takes_bearer = λ e f.
        handler-key key h req o w (presented_key-bearer h key nonempty e f) ∙ cors-IsVms req o w v;
  }

  -- An OPTIONS request without a key, as a browser sends it, is refused by a server that has one.
  pub handler_preflight :
      (key path : String) (o : Orchestrator) (w : W)
      → key ≢ ""
      → path ≢ "/health"
      → handler rt init_agent rfc3339 agent key
          (record { x_api_key = ""; authorization = "" })
          (options path)
          o
          w
        ≡ (reply 401 unauthorized, o, w)
  unfolding handler path_of presented_key
  handler_preflight key path o w nonempty closed = ground (
    arith,
    string_comparable.same_iff key "",
    string_comparable.same_iff "" key,
    string_comparable.same_iff path "/health",
  )

  created-IsValid :
      (config : Config) (r : Result (OrchError E) VmInstance × Orchestrator × W)
      → IsValid config r.1
      → IsValid config (created_answer rt init_agent rfc3339 r).1
  unfolding created_answer
  created-IsValid config (err e, o, w) v = v
  created-IsValid config (ok vm, o, w) v = v

  route-IsValid :
      (config : Config) (req : Request) (o : Orchestrator) (w : W)
      → IsValid config o
      → IsValid config (route rt init_agent rfc3339 agent req o w).1
  unfolding route create_vm delete_vm
  route-IsValid config (post_vms none uuid now) o w v = v
  route-IsValid config (post_vms (some req) uuid now) o w v =
      created-IsValid config _
        (create-IsValid rt init_agent config o (create_request req) uuid now w v)
  route-IsValid config (delete_one id) o w v = delete_vm-IsValid rt init_agent config o id w v
  route-IsValid config get_vms o w v = v
  route-IsValid config get_health o w v = v
  route-IsValid config (get_one id) o w v = v
  route-IsValid config (post_exec id body) o w v = v
  route-IsValid config (post_exec_stream id body) o w v = v
  route-IsValid config (get_files id query) o w v = v
  route-IsValid config (get_files_list id query) o w v = v
  route-IsValid config (put_files id query body) o w v = v
  route-IsValid config (delete_files id path) o w v = v
  route-IsValid config (post_mkdir id path) o w v = v
  route-IsValid config (options path) o w v = v
  route-IsValid config (unrouted status path) o w v = v

  cors-IsValid :
      (config : Config) (req : Request) (o : Orchestrator) (w : W)
      → IsValid config o
      → IsValid config (cors rt init_agent rfc3339 agent req o w).1
  unfolding cors
  cors-IsValid config (options path) o w v = v
  cors-IsValid config req o w v = route-IsValid config req o w v

  -- Every request, let through or not, keeps the orchestrator well-formed.
  pub handler-IsValid :
      (config : Config) (key : String) (h : Headers) (req : Request) (o : Orchestrator) (w : W)
      → IsValid config o
      → IsValid config (handler rt init_agent rfc3339 agent key h req o w).1
  unfolding handler
  handler-IsValid config key h req o w v =
      elim (Bool-cases (path_of req == "/health" || key == "" || presented_key h == key)) [
        | inl open_to ↦ rw open_to (cors-IsValid config req o w v)
        | inr closed ↦ rw closed v
      ]
