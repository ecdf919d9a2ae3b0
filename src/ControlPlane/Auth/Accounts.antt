-- ===== src/ControlPlane/Auth/Accounts.antt =====
-- Registering, logging in and out: controlplane/auth.go over the tables of controlplane/db.go.
use gitvm.Base.{
  ◌≡◌, ◌≢◌, ◌⊎◌, inl, inr, refl, ◌∙◌, String, false, Option, none, some, [], ◌∷◌, ok, err, arith,
  Bool-cases, Option-cases, if◌then◌else◌, ◌==◌, string_comparable, ◌||◌, ==_refl,
}
use text.Mathlib.Text.{starts_with}
use gitvm.Base.Table.{
  Table, lookup, insert, values, lookup-insert, lookup-insert_self, lookup-remove_self,
}
use gitvm.Http.{respond}
use gitvm.ControlPlane.Types.{Project, User}
use gitvm.ControlPlane.Db.{
  Db, not_unique, find_by, create_user, get_user_by_email, get_user, create_project,
}
use gitvm.ControlPlane.Auth.{
  Request, of_user, granted, authentication_required, is_public_path, Sessions, create_session,
  get_session, delete_session, is_node_key, by_session, authorize, Credentials, AuthBody, logged_in,
  invalid_credentials, with_project, handle_register, handle_login, handle_logout,
}

-- A row with a new primary key is the last one that a search finds.
find_by-insert :
    {A : Type 0} (key : A → String) (x id : String) (a : A) (m : Table String A)
    → lookup id m ≡ none
    → find_by key x (values m) ≡ none
    → find_by key x (values (insert id a m)) ≡ (if key a == x then some a else none)
unfolding find_by values insert lookup
find_by-insert key x id a [] fresh h = ground arith
find_by-insert key x id a ((j, b) ∷ m) fresh h = ground (arith, find_by-insert key x id a m)

with_user : User → Db → Db
with_user u d = record d { users = insert u.id u d.users }

create_user-cases :
    (u : User) (d : Db)
    → (create_user u d ≡ err not_unique)
      ⊎ ((lookup u.id d.users ≡ none)
          × (get_user_by_email u.email d ≡ none)
          × (create_user u d ≡ ok (with_user u d)))
unfolding create_user get_user_by_email with_user
create_user-cases u d = ground arith

with_project-users : (p : Project) (d : Db) → (with_project p d).users ≡ d.users
unfolding with_project create_project
with_project-users p d = ground arith

-- What a database holds once a user is entered.
with_user-get :
    (u : User) (p : Project) (d : Db)
    → lookup u.id d.users ≡ none
    → get_user_by_email u.email d ≡ none
    → (get_user_by_email u.email (with_project p (with_user u d)) ≡ some u)
      × (get_user u.id (with_project p (with_user u d)) ≡ some u)
unfolding get_user_by_email get_user with_user
with_user-get u p d fresh unknown = (
  rw (with_project-users p (with_user u d))
      (ground (arith, find_by-insert (λ v. v.email) u.email u.id u d.users, ==_refl u.email)),
  rw (with_project-users p (with_user u d)) (lookup-insert_self u.id u d.users),
)

authorize-by_session :
    (config_key : String) (d : Db) (s : Sessions) (r : Request)
    → r.api_key ≡ ""
    → is_node_key config_key r.node_key ≡ false
    → is_public_path r.path ≡ false
    → starts_with r.path "/internal/" ≡ false
    → authorize config_key d s r ≡ by_session d s r.session_cookie
unfolding authorize
authorize-by_session config_key d s r no_key no_node closed outside =
    rw (no_key, no_node, closed, outside, authorize) refl

by_session_live :
    (d : Db) (s : Sessions) (token user_id : String) (user : User)
    → token ≢ ""
    → get_user user_id d ≡ some user
    → by_session d (create_session token user_id s) (some token) ≡ granted (of_user user)
unfolding by_session create_session get_session
by_session_live d s token user_id user token_set there =
    ground (arith, string_comparable.same_iff token "", lookup-insert_self token user_id s)

by_session_ended :
    (d : Db) (s : Sessions) (token : String)
    → by_session d (delete_session token s) (some token) ≡ authentication_required
unfolding by_session delete_session get_session
by_session_ended d s token = ground (arith, lookup-remove_self token s)

module _ (hash_password : String → String) where
  abbrev new_user : Credentials → String → User
  new_user c user_id = record {
    id = user_id;
    email = c.email;
    password_hash = hash_password c.password;
  }

  handle_register_ok :
      (c : Credentials) (user_id project_id api_key token : String) (d d' : Db) (s s' : Sessions)
      (body : AuthBody)
      → handle_register hash_password (some c) user_id project_id api_key token d s
        ≡ (respond 200 body, d', s')
      → (get_user_by_email c.email d' ≡ some (new_user c user_id))
        × (get_user user_id d' ≡ some (new_user c user_id))
        × (s' ≡ create_session token user_id s)
  unfolding handle_register
  handle_register_ok c user_id project_id api_key token d d' s s' body ok' =
      let u = new_user c user_id in
      let p : Project = record {
        id = project_id;
        name = "Default";
        api_key = api_key;
        owner_id = user_id;
      } in
      ground (arith, create_user-cases u d, with_user-get u p d)

  -- After a registration that succeeds, a login with its email succeeds as its user when the hash
  -- of the password is that of the registered one, with a new session, and is otherwise refused by
  -- 401.
  pub login-register :
      (c : Credentials) (user_id project_id api_key token : String) (d d' : Db) (s s' : Sessions)
      (body : AuthBody) (password later : String) (t : Sessions)
      → handle_register hash_password (some c) user_id project_id api_key token d s
        ≡ (respond 200 body, d', s')
      → handle_login hash_password (some (record c { password = password })) later d' t ≡ (
          if hash_password password == hash_password c.password
          then (respond 200 (logged_in user_id), create_session later user_id t)
          else (respond 401 invalid_credentials, t))
  unfolding handle_login
  login-register c user_id project_id api_key token d d' s s' body password later t h =
      rw ((handle_register_ok c user_id project_id api_key token d d' s s' body h).0, handle_login)
        refl

  -- After a registration that succeeds, its session cookie, where it is not empty, lets its user
  -- through to a path that is neither public nor internal, in a request with no API key and no
  -- valid node key; after a logout with that cookie it does not.
  pub register-logout :
      (config_key : String) (c : Credentials) (user_id project_id api_key token : String)
      (d d' : Db) (s s' : Sessions) (body : AuthBody) (r : Request)
      → handle_register hash_password (some c) user_id project_id api_key token d s
        ≡ (respond 200 body, d', s')
      → r.session_cookie ≡ some token
      → token ≢ ""
      → r.api_key ≡ ""
      → is_node_key config_key r.node_key ≡ false
      → is_public_path r.path ≡ false
      → starts_with r.path "/internal/" ≡ false
      → (authorize config_key d' s' r ≡ granted (of_user (new_user c user_id)))
        × (authorize config_key d' (handle_logout (some token) s').1 r ≡ authentication_required)
  unfolding handle_logout
  register-logout config_key c user_id project_id api_key token d d' s s' body r h cookie token_set
        no_key no_node closed outside =
      let (_, there, kept) =
        handle_register_ok c user_id project_id api_key token d d' s s' body h in
      (
        authorize-by_session config_key d' s' r no_key no_node closed outside
            ∙ (rw (cookie, kept) (by_session_live d' s token user_id _ token_set there)),
        authorize-by_session config_key d' (delete_session token s') r no_key no_node closed outside
            ∙ (rw cookie (by_session_ended d' s' token)),
      )

-- Two users never have the same email.
unfoldable pub IsUnique : Db → Type 0
IsUnique d =
    (i j : String) (u v : User)
    → get_user i d ≡ some u
    → get_user j d ≡ some v
    → u.email ≡ v.email
    → i ≡ j

find_by-none :
    {A : Type 0} (key : A → String) (x i : String) (a : A) (m : Table String A)
    → find_by key x (values m) ≡ none
    → lookup i m ≡ some a
    → key a ≢ x
unfolding find_by values lookup
find_by-none key x i a [] h found = absurd cc
find_by-none key x i a ((j, b) ∷ m) h found =
    ground (arith, find_by-none key x i a m, string_comparable.same_iff (key b) x)

with_user-IsUnique :
    (u : User) (d : Db) → get_user_by_email u.email d ≡ none → IsUnique d → IsUnique (with_user u d)
unfolding with_user get_user_by_email get_user IsUnique
with_user-IsUnique u d unknown unique i j v w p q same = ground (
  arith,
  lookup-insert u.id i u d.users,
  lookup-insert u.id j u d.users,
  string_comparable.same_iff u.id i,
  string_comparable.same_iff u.id j,
  unique i j v w,
  find_by-none (λ x. x.email) u.email i v d.users unknown,
  find_by-none (λ x. x.email) u.email j w d.users unknown,
)

with_project-IsUnique : (p : Project) (d : Db) → IsUnique d → IsUnique (with_project p d)
unfolding IsUnique get_user
with_project-IsUnique p d unique i j v w a b =
    unique i j v w (rw⁻¹ (with_project-users p d) a) (rw⁻¹ (with_project-users p d) b)

-- Where no two users have the same email, a registration keeps it so.
pub handle_register-IsUnique :
    (hash_password : String → String) (c : Option Credentials)
    (user_id project_id api_key token : String) (d : Db) (s : Sessions)
    → IsUnique d
    → IsUnique (handle_register hash_password c user_id project_id api_key token d s).1
unfolding handle_register
handle_register-IsUnique hash_password none user_id project_id api_key token d s unique = unique
handle_register-IsUnique hash_password (some c) user_id project_id api_key token d s unique =
    let u = new_user hash_password c user_id in
    elim (Bool-cases (c.email == "" || c.password == "")) [
      | inl blank ↦ rw (blank, handle_register) unique
      | inr given ↦ elim (Option-cases (get_user_by_email c.email d)) [
        | inr (v, taken) ↦ rw (given, taken, handle_register) unique
        | inl unknown ↦ elim (create_user-cases u d) [
          | inl refused ↦ rw (given, unknown, refused, handle_register) unique
          | inr (_, _, entered) ↦
              rw (given, unknown, entered, handle_register)
                (with_project-IsUnique _ _ (with_user-IsUnique u d unknown unique))
        ]
      ]
    ]
