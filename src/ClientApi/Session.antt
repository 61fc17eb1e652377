-- ===== src/ClientApi/Session.antt =====
-- client_api/auth.rs: login, logout and registration.
pub mod Login
pub mod Token
pub mod SignUp
mod Tests
use Prim.Native.String.{String}
use text.Mathlib.Text.{starts_with}
use kerux.Prelude.{ℕ, Bool, true, false, not, Option, none, some, List, [], ◌∷◌}
use kerux.Prelude.Tests.{if◌then◌else◌}
use kerux.Prelude.Equality.{◌==◌, string_eq}
use kerux.Prelude.Lists.{find}
use kerux.Errors.{ErrorKind, Outcome, ok, err, forbidden, bad_json, missing_param, invalid_param}
use kerux.Errors.{unimplemented}
use kerux.Exec.{Exec, reads, pure, raise, ok_or, expect, ◌>>=◌, ◌>>◌}
use kerux.Mxid.{MatrixId, MxidError, Checked, valid, invalid, try_from, new, localpart}
use kerux.Mxid.Text.{split}
use kerux.Events.Room.{unwrap_or}
use kerux.Storage.Mem.{Uuid, MemStorage}
use kerux.Storage.Mem.Accounts.{create_user, verify_password, create_access_token}
use kerux.Storage.Mem.Accounts.{delete_access_token, delete_all_access_tokens}
use kerux.Util.AddEvent.{Server, on_db}
use kerux.ClientApi.{Context, own_id}

pub data Identifier : Type 0 where
  username : String → Identifier
  third_party phone : String → String → Identifier

pub data LoginType : Type 0 where
  m_login_password : LoginType

-- The `flows` of the answer, each by its `type`.
pub get_supported_login_types : List LoginType
get_supported_login_types = m_login_password ∷ []

pub record LoginRequest : Type 0 where
  pub identifier : Identifier
  pub password : Option String
  pub device_id : Option String

pub record LoginResponse : Type 0 where
  pub user_id : MatrixId
  pub access_token : Uuid
  pub device_id : String
  pub home_server : String

pub record RegisterRequest : Type 0 where
  pub username : String
  pub password : String
  pub device_id : Option String
  pub inhibit_login : Bool

-- Either the name alone, or with a token and a device.
pub data RegisterResponse : Type 0 where
  registered : String → RegisterResponse
  registered_and_in : MatrixId → Uuid → String → RegisterResponse

-- The `match` on the parameter `kind` of a query string.
pub check_kind : String → Outcome (Unit {0})
check_kind query = elim (find (λ s. starts_with s "kind=") (split b'&' query)) [
  | none ↦ err (missing_param "kind")
  | some kind ↦
      if kind == "kind=user"
      then ok tt
      else if kind == "kind=guest"
      then err unimplemented
      else err (invalid_param kind)
]

module _ {J : Type 0} (cx : Context J) where
  -- A full identifier stands for its localpart, whatever its domain is.
  pub login_name : Identifier → Outcome String
  login_name (username user) = elim (try_from cx.is_server_name user) [
    | valid mxid ↦ ok (localpart mxid)
    | invalid e ↦ ok user
  ]
  login_name (third_party medium address) = err unimplemented
  login_name (phone country number) = err unimplemented

  abbrev allowed : Bool → Exec (Server J) (Unit {0})
  allowed true = pure tt
  allowed false = raise forbidden

  -- `token` and `device` are what the handler draws.
  pub login : Uuid → String → LoginRequest → Exec (Server J) LoginResponse
  unfolding login_name
  login token device req = do
    name ← reads (λ _. login_name req.identifier)
    password ← ok_or req.password unimplemented
    right ← reads (λ (s : Server J). verify_password cx.argon name password s.db)
    allowed right
    access_token ← on_db (create_access_token token name (unwrap_or req.device_id device))
    user_id ← own_id cx name
    pure (record {
      user_id = user_id;
      access_token = access_token;
      device_id = unwrap_or req.device_id device;
      home_server = cx.domain;
    })

  unfoldable pub logout : Uuid → Exec (Server J) (Unit {0})
  logout token = on_db (delete_access_token token)

  unfoldable pub logout_all : Uuid → Exec (Server J) (Unit {0})
  logout_all token = on_db (delete_all_access_tokens token)

  -- `e` is shown in the error.
  abbrev new_or_bad_json : (MxidError → String) → Checked MatrixId → Outcome MatrixId
  new_or_bad_json show (valid m) = ok m
  new_or_bad_json show (invalid e) = err (bad_json (show e))

  abbrev registered_login :
      Uuid → String → RegisterRequest → MatrixId → Exec (Server J) RegisterResponse
  registered_login token device req user_id =
      if req.inhibit_login then pure (registered req.username) else do
        access_token ←
            on_db (create_access_token token (localpart user_id) (unwrap_or req.device_id device))
        pure (registered_and_in user_id access_token (unwrap_or req.device_id device))

  pub register :
      (MxidError → String)
      → ℕ
      → Uuid
      → String
      → String
      → RegisterRequest
      → Exec (Server J) RegisterResponse
  unfolding check_kind
  register show salt token device query req = do
    reads (λ _. check_kind query)
    user_id ← reads (λ _. new_or_bad_json show (new cx.is_server_name req.username cx.domain))
    on_db (create_user cx.argon salt (localpart user_id) req.password)
    registered_login token device req user_id
