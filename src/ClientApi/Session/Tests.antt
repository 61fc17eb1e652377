-- ===== src/ClientApi/Session/Tests.antt =====
-- client_api/auth.rs: runs of the handlers, and the theorem on logins at a concrete server.
use kerux.Prelude.{String, ◌≡◌, refl, true, Option, none, some}
use kerux.Prelude.Tests.{if◌then◌else◌}
use kerux.Prelude.Equality.{◌==◌, string_eq}
use kerux.Prelude.Maps.{remove, retain}
use kerux.Errors.{ok, err, forbidden, missing_param}
use kerux.ClientApi.{Context}
use kerux.Storage.Mem.Accounts.{find_user}
use kerux.Storage.Mem.Accounts.Users.{accepts}
use kerux.Mxid.{MatrixId, valid, MxidError, new, localpart}
use kerux.Mxid.Text.{trim_start, any_char}
use kerux.Storage.Mem.{Uuid}
use kerux.Storage.Mem.Accounts.{verify_password, create_access_token, try_auth, create_user}
use kerux.Storage.Mem.Accounts.{delete_access_token, delete_all_access_tokens, insert_user}
use kerux.ClientApi.Session.{username, LoginRequest, LoginResponse, login, login_name}
use kerux.ClientApi.Session.{logout, logout_all, register, RegisterRequest, registered, check_kind}
use kerux.ClientApi.Session.Login.{login-try_auth}
use kerux.ClientApi.Session.SignUp
use kerux.ClientApi.Session.SignUp.{login-register}
use kerux.ClientApi.Session.Token.{from_request, parsed, strip_prefix, from_request-sent}
use kerux.Fixtures.{runs, context, server, argon, any_server, db, alice}

session_runs : Unit {0}
unfolding runs new localpart trim_start verify_password create_access_token try_auth create_user
    delete_access_token delete_all_access_tokens insert_user login login_name logout logout_all
    register check_kind remove retain
session_runs = tt

abbrev token : Uuid
token = 8

abbrev request : LoginRequest
request = record { identifier = username "alice"; password = some "pw"; device_id = none }

abbrev response : LoginResponse
response = record { user_id = alice; access_token = 8; device_id = "dev"; home_server = "x" }

logged_in : (login context 8 "dev" request server).0 ≡ ok response
unfolding session_runs
logged_in = refl

login-try_auth_example :
    (name password : String) × (login_name context (username "alice") ≡ ok name)
    × (some "pw" ≡ some password)
    × (verify_password argon name password db ≡ ok true)
    × (token ≡ token)
    × (try_auth 8 (login context 8 "dev" request server).1.db ≡ ok (some name))
login-try_auth_example = login-try_auth context 8 "dev" request response server logged_in

logged_out :
    (try_auth 7 (logout context 7 server).1.db ≡ ok none)
    × (try_auth 7 (logout_all context 7 server).1.db ≡ ok none)
unfolding session_runs
logged_out = (refl, refl)

abbrev new_user : RegisterRequest
new_user = record { username = "bob"; password = "pw"; device_id = none; inhibit_login = true }

abbrev show : MxidError → String
show e = "invalid"

signed_up :
    ((register context show 1 9 "dev" "kind=user" new_user server).0 ≡ ok (registered "bob"))
    × ((register context show 1 9 "dev" "" new_user server).0 ≡ err (missing_param "kind"))
unfolding session_runs
signed_up = (refl, refl)

-- Argon2 as if a hash were the password: it accepts nothing else.
abbrev strict : Context String
strict = record context {
  argon = record {
    hash_encoded = λ password salt. ok password;
    verify_encoded = λ hash password. some (hash == password);
  };
}

abbrev bob_logs_in : String → LoginRequest
bob_logs_in guess = record { identifier = username "bob"; password = some guess; device_id = none }

registering :
    ((register strict show 1 9 "dev" "kind=user" new_user server).0 ≡ ok (registered "bob"))
    × (login_name strict (username "bob") ≡ ok "bob")
unfolding session_runs
registering = (refl, refl)

login-register_example :
    (user : MatrixId) × (h : String) × (new any_server "bob" "x" ≡ valid user)
    × (find_user "bob" db.users ≡ none)
    × (strict.argon.hash_encoded "pw" 1 ≡ ok h)
    × ((login strict 8 "phone"
          (bob_logs_in "pw")
          (register strict show 1 9 "dev" "kind=user" new_user server).1).0
        ≡ (if accepts strict.argon h "pw"
            then ok (SignUp.logged_in strict 8 "phone" (bob_logs_in "pw") user)
            else err forbidden))
login-register_example =
    login-register strict show 1 9 8 "dev" "phone" "kind=user" "pw" new_user (bob_logs_in "pw")
      (registered "bob") server registering.0 registering.1 refl

-- Every text but the empty one is a token.
abbrev parse_text : String → Option Uuid
parse_text text = if text == "" then none else some 7

from_request-sent_example :
    (from_request parse_text (some (some "Bearer t7")) (some "access_token=t8")
      ≡ parsed parse_text "t7")
    × (from_request parse_text none (some "access_token=t7") ≡ parsed parse_text "t7")
unfolding strip_prefix any_char
from_request-sent_example =
    from_request-sent parse_text "t7" (some "access_token=t8") refl refl refl
