-- ===== src/ControlPlane/Tests/Accounts.antt =====
-- Registered users and their requests: the theorems at concrete inputs.
use gitvm.Base.{◌≡◌, refl, some, [], arith, string_comparable, if◌then◌else◌, ◌==◌}
use gitvm.Http.{respond}
use gitvm.ControlPlane.Auth.{
  Request, of_user, granted, authentication_required, create_session, authorize, registered,
  logged_in, invalid_credentials, handle_login, handle_logout,
}
use gitvm.ControlPlane.Auth.Decisions.{IsDecision, authorize-IsDecision}
use gitvm.ControlPlane.Auth.Accounts.{IsUnique, login-register, register-logout}
use gitvm.ControlPlane.Tests.{a_db, hash, ada, a_request, control_plane, ada_db, ada_sessions}

authorize-IsDecision_example :
    IsDecision "key" ada_db ada_sessions
      (a_request "/v1/sandboxes")
      (authorize "key" ada_db ada_sessions (a_request "/v1/sandboxes"))
authorize-IsDecision_example =
    authorize-IsDecision "key" ada_db ada_sessions (a_request "/v1/sandboxes")

abbrev from_node : Request
from_node = record (a_request "/internal/nodes/register") { node_key = "key" }

login-register_example :
    handle_login hash (some (record ada { password = "guess" })) "later" ada_db [] ≡ (
      if hash "guess" == hash "secret"
      then (respond 200 (logged_in "u"), create_session "later" "u" [])
      else (respond 401 invalid_credentials, []))
unfolding control_plane
login-register_example =
    login-register hash ada "u" "p" "gvm_1" "token" a_db ada_db [] ada_sessions
      (registered "u" "p" "gvm_1") "guess" "later" [] refl

register-logout_example :
    (authorize "key" ada_db ada_sessions (a_request "/v1/nodes")
      ≡ granted (
          of_user
            (record { id = "u"; email = "ada@example.org"; password_hash = "sha256 secret" })))
    × (authorize "key" ada_db (handle_logout (some "token") ada_sessions).1 (a_request "/v1/nodes")
        ≡ authentication_required)
unfolding control_plane
register-logout_example =
    register-logout hash "key" ada "u" "p" "gvm_1" "token" a_db ada_db [] ada_sessions
      (registered "u" "p" "gvm_1") (a_request "/v1/nodes") refl refl
      (λ e. ground (arith, string_comparable.same_iff "token" "")) refl refl refl refl

a_db-IsUnique : IsUnique a_db
unfolding control_plane IsUnique
a_db-IsUnique i j u v p q same = cc
