-- ===== src/ControlPlane/Auth.antt =====
-- controlplane/auth.go: who is let through to the handlers, the sessions, and registering and logging
-- in. `sha256` is a parameter; a random token or id is an argument.
pub mod Decisions
pub mod Accounts
use gitvm.Base.{
  ℕ, String, Bool, true, false, Option, none, some, List, [], ◌∷◌, Result, ok, err, if◌then◌else◌,
  ◌==◌, string_comparable, not, ◌&&◌, ◌||◌,
}
use text.Mathlib.Text.{starts_with}
use gitvm.Base.Table.{Table, lookup, insert, remove}
use gitvm.Http.{Response, respond}
use gitvm.ControlPlane.Types.{Project, User}
use gitvm.ControlPlane.Db.{
  Db, DbError, create_user, get_user_by_email, get_user, create_project, get_project_by_api_key,
}

-- The parts of a request that the middleware reads. A header that is not set is "".
pub record Request : Type 0 where
  pub path : String
  pub node_key : String
  pub api_key : String
  pub session_cookie : Option String

-- What the handler finds in the request's context.
pub data Context : Type 0 where
  anonymous : Context
  of_project : Project → Context
  of_user : User → Context

-- `next.ServeHTTP`, or 401 with its message
pub data Access : Type 0 where
  granted : Context → Access
  invalid_node_key invalid_api_key authentication_required : Access

unfoldable pub is_public_path : String → Bool
is_public_path path =
    path == "/health" || path == "/auth/login" || path == "/auth/register" || path == "/auth/logout"

-- `SessionStore`: token to user id
abbrev pub Sessions : Type 0
Sessions = Table String String

unfoldable pub create_session : String → String → Sessions → Sessions
create_session token user_id s = insert token user_id s

unfoldable pub get_session : String → Sessions → Option String
get_session token s = lookup token s

unfoldable pub delete_session : String → Sessions → Sessions
delete_session token s = remove token s

-- `nodeKey != "" && nodeKey == s.config.NodeKey`
abbrev pub is_node_key : String → String → Bool
is_node_key config_key key = not (key == "") && key == config_key

-- The session part of the middleware.
unfoldable pub by_session : Db → Sessions → Option String → Access
by_session d s none = authentication_required
by_session d s (some token) =
    if token == "" then authentication_required else elim (get_session token s) [
      | none ↦ authentication_required
      | some user_id ↦ elim (get_user user_id d) [
        | none ↦ authentication_required
        | some user ↦ granted (of_user user)
      ]
    ]

-- `AuthMiddleware`, over the configured node key.
unfoldable pub authorize : String → Db → Sessions → Request → Access
unfolding is_public_path by_session
authorize config_key d s r =
    if is_public_path r.path
    then granted anonymous
    else if is_node_key config_key r.node_key
    then granted anonymous
    else if starts_with r.path "/internal/"
    then invalid_node_key
    else if not (r.api_key == "")
    then elim (get_project_by_api_key r.api_key d) [
      | none ↦ invalid_api_key
      | some project ↦ granted (of_project project)
    ]
    else by_session d s r.session_cookie

pub record Credentials : Type 0 where
  pub email : String
  pub password : String

pub data AuthBody : Type 0 where
  bad_request email_and_password_required email_taken internal invalid_credentials : AuthBody
  registered : String → String → String → AuthBody
  logged_in : String → AuthBody
  logged_out : AuthBody

-- A failure to create the default project is only logged.
unfoldable pub with_project : Project → Db → Db
with_project p d = elim (create_project p d) [ err _ ↦ d | ok d' ↦ d' ]

module _ (hash_password : String → String) where
  -- The ids, the API key and the session token are random.
  unfoldable pub handle_register :
      Option Credentials
      → String
      → String
      → String
      → String
      → Db
      → Sessions
      → Response AuthBody × Db × Sessions
  unfolding with_project
  handle_register none user_id project_id api_key token d s = (respond 400 bad_request, d, s)
  handle_register (some c) user_id project_id api_key token d s =
      let user : User = record {
        id = user_id;
        email = c.email;
        password_hash = hash_password c.password;
      } in
      let project : Project = record {
        id = project_id;
        name = "Default";
        api_key = api_key;
        owner_id = user_id;
      } in
      if c.email == "" || c.password == ""
      then (respond 400 email_and_password_required, d, s)
      else elim (get_user_by_email c.email d) [
        | some _ ↦ (respond 409 email_taken, d, s)
        | none ↦ elim (create_user user d) [
          | err _ ↦ (respond 500 internal, d, s)
          | ok d₁ ↦ (
            respond 200 (registered user_id project_id api_key),
            with_project project d₁,
            create_session token user_id s,
          )
        ]
      ]

  unfoldable pub handle_login :
      Option Credentials → String → Db → Sessions → Response AuthBody × Sessions
  handle_login none token d s = (respond 400 bad_request, s)
  handle_login (some c) token d s = elim (get_user_by_email c.email d) [
    | none ↦ (respond 401 invalid_credentials, s)
    | some user ↦
        if hash_password c.password == user.password_hash
        then (respond 200 (logged_in user.id), create_session token user.id s)
        else (respond 401 invalid_credentials, s)
  ]

unfoldable pub handle_logout : Option String → Sessions → Response AuthBody × Sessions
handle_logout none s = (respond 200 logged_out, s)
handle_logout (some token) s = (respond 200 logged_out, delete_session token s)
