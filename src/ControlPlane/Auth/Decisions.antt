-- ===== src/ControlPlane/Auth/Decisions.antt =====
-- Who is let through by `AuthMiddleware` of controlplane/auth.go.
use gitvm.Base.{
  ◌≡◌, ◌≢◌, ◌⊎◌, inl, inr, refl, String, true, false, Option, none, some, arith, Bool-cases,
  Option-cases, ◌==◌, string_comparable, sym, subst,
}
use text.Mathlib.Text.{starts_with}
use gitvm.ControlPlane.Db.{Db, get_user, get_project_by_api_key}
use gitvm.ControlPlane.Auth.{
  Request, Context, anonymous, of_project, of_user, Access, granted, invalid_node_key,
  invalid_api_key, authentication_required, is_public_path, Sessions, get_session, is_node_key,
  by_session, authorize,
}

-- No user has a session by the cookie of a request.
abbrev pub HasNoSession : Db → Sessions → Option String → Type 0
HasNoSession d s none = Unit {0}
HasNoSession d s (some token) =
    (token ≡ "")
    ⊎ ((get_session token s ≡ none)
        ⊎ ((user_id : String) × (get_session token s ≡ some user_id) × (get_user user_id d ≡ none)))

-- What a decision says of the request.
abbrev pub IsDecision : String → Db → Sessions → Request → Access → Type 0
IsDecision config_key d s r (granted anonymous) =
    (is_public_path r.path ≡ true) ⊎ ((r.node_key ≢ "") × (r.node_key ≡ config_key))
IsDecision config_key d s r (granted (of_project project)) =
    (r.api_key ≢ "")
    × (get_project_by_api_key r.api_key d ≡ some project)
    × (starts_with r.path "/internal/" ≡ false)
IsDecision config_key d s r (granted (of_user user)) =
    (token : String) × (user_id : String) × (r.session_cookie ≡ some token)
    × (get_session token s ≡ some user_id)
    × (get_user user_id d ≡ some user)
    × (starts_with r.path "/internal/" ≡ false)
IsDecision config_key d s r invalid_node_key =
    (starts_with r.path "/internal/" ≡ true) × (is_node_key config_key r.node_key ≡ false)
IsDecision config_key d s r invalid_api_key =
    (r.api_key ≢ "")
    × (get_project_by_api_key r.api_key d ≡ none)
    × (is_node_key config_key r.node_key ≡ false)
    × (is_public_path r.path ≡ false)
IsDecision config_key d s r authentication_required =
    (r.api_key ≡ "")
    × HasNoSession d s r.session_cookie
    × (is_node_key config_key r.node_key ≡ false)
    × (is_public_path r.path ≡ false)

is_node_key_lem :
    (config_key key : String) → is_node_key config_key key ≡ true → (key ≢ "") × (key ≡ config_key)
is_node_key_lem config_key key h =
    ground (arith, string_comparable.same_iff key "", string_comparable.same_iff key config_key)

keyed_lem : (key : String) → (key == "") ≡ false → key ≢ ""
keyed_lem key h = ground (arith, string_comparable.same_iff key "")

by_session-IsDecision :
    (config_key : String) (d : Db) (s : Sessions) (r : Request) (cookie : Option String)
    → r.session_cookie ≡ cookie
    → r.api_key ≡ ""
    → is_node_key config_key r.node_key ≡ false
    → is_public_path r.path ≡ false
    → starts_with r.path "/internal/" ≡ false
    → IsDecision config_key d s r (by_session d s cookie)
unfolding by_session
by_session-IsDecision config_key d s r none sent no_key no_node closed outside =
    (no_key, rw sent tt, no_node, closed)
by_session-IsDecision config_key d s r (some token) sent no_key no_node closed outside =
    elim (Bool-cases (token == "")) [
      | inl blank ↦
          rw (blank, by_session)
            (no_key, rw sent (inl ((string_comparable.same_iff token "").0 blank)), no_node, closed)
      | inr token_set ↦ elim (Option-cases (get_session token s)) [
        | inl unknown ↦
            rw (token_set, unknown, by_session)
              (no_key, rw sent (inr (inl unknown)), no_node, closed)
        | inr (user_id, session) ↦ elim (Option-cases (get_user user_id d)) [
          | inl gone ↦
              rw (token_set, session, gone, by_session)
                (no_key, rw sent (inr (inr (user_id, session, gone))), no_node, closed)
          | inr (user, there) ↦
              rw (token_set, session, there, by_session)
                (token, user_id, sent, session, there, outside)
        ]
      ]
    ]

-- Each answer of AuthMiddleware is justified: a request comes through without project or user only
-- on a public path or with the non-empty node key, with a project only by its own API key, with a
-- user only by a session of that user, with either never to a path under /internal/, and it is
-- refused only for a reason that holds: as unauthenticated with no API key and no session of a
-- stored user, for its API key when no project has that key, under /internal/ without the node
-- key.
pub authorize-IsDecision :
    (config_key : String) (d : Db) (s : Sessions) (r : Request)
    → IsDecision config_key d s r (authorize config_key d s r)
unfolding authorize
authorize-IsDecision config_key d s r = elim (Bool-cases (is_public_path r.path)) [
  | inl public ↦ rw (public, authorize) (inl public)
  | inr closed ↦ elim (Bool-cases (is_node_key config_key r.node_key)) [
    | inl node ↦ rw (closed, node, authorize) (inr (is_node_key_lem config_key r.node_key node))
    | inr no_node ↦ elim (Bool-cases (starts_with r.path "/internal/")) [
      | inl inside ↦ rw (closed, no_node, inside, authorize) (inside, no_node)
      | inr outside ↦ elim (Bool-cases (r.api_key == "")) [
        | inl blank ↦
            rw (closed, no_node, outside, blank, authorize)
              (by_session-IsDecision config_key d s r r.session_cookie refl
                ((string_comparable.same_iff r.api_key "").0 blank) no_node closed outside)
        | inr keyed ↦ elim (Option-cases (get_project_by_api_key r.api_key d)) [
          | inl unknown ↦
              rw (closed, no_node, outside, keyed, unknown, authorize)
                (keyed_lem r.api_key keyed, unknown, no_node, closed)
          | inr (project, there) ↦
              rw (closed, no_node, outside, keyed, there, authorize)
                (keyed_lem r.api_key keyed, there, outside)
        ]
      ]
    ]
  ]
]

outside_at :
    (path public : String)
    → starts_with public "/internal/" ≡ false
    → (path == public) ≡ true
    → starts_with path "/internal/" ≡ false
outside_at path public h e =
    subst (λ p. starts_with p "/internal/" ≡ false)
      (sym ((string_comparable.same_iff path public).0 e)) h

public_is_outside :
    (path : String) → is_public_path path ≡ true → starts_with path "/internal/" ≡ false
unfolding is_public_path
public_is_outside path h = ground (
  arith,
  outside_at path "/health" refl,
  outside_at path "/auth/login" refl,
  outside_at path "/auth/register" refl,
  outside_at path "/auth/logout" refl,
)

-- A request to a path under /internal/ that comes through carries the configured node key, which
-- is not empty, and has neither a project nor a user.
pub authorize_internal :
    (config_key : String) (d : Db) (s : Sessions) (r : Request) (c : Context)
    → starts_with r.path "/internal/" ≡ true
    → authorize config_key d s r ≡ granted c
    → (c ≡ anonymous) × (r.node_key ≢ "") × (r.node_key ≡ config_key)
unfolding authorize
authorize_internal config_key d s r c inside ok =
    ground (arith, public_is_outside r.path, is_node_key_lem config_key r.node_key)
