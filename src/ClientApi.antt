-- ===== src/ClientApi.antt =====
-- client_api/: the handlers of the client-server API, over the in-memory storage. A request comes
-- as its fields, after actix and serde have read it; random numbers and clock readings are
-- arguments. A response is the value that is turned into JSON.
pub mod Session
pub mod Profile
pub mod Room
pub mod RoomEvents
pub mod Sync
pub mod Access
pub mod Reading
pub mod Sending
pub mod Sent
pub mod ReadBack
pub mod Refusal
pub mod Joining
pub mod Creation
mod Tests
use kerux.Prelude.{ℕ, String, Bool, true, false, Option, none, some}
use kerux.Errors.{Outcome, ok, err, panic, ErrorKind, unknown_token}
use kerux.Exec.{Exec, reads, pure, raise, ok_or, ◌>>=◌}
use kerux.Mxid.{MatrixId, Checked, valid, invalid, new}
use kerux.Events.Content.{Serde}
use kerux.Events.Pdu.{Hashing}
use kerux.Storage.Mem.{Uuid}
use kerux.Storage.Mem.Accounts.{Argon, try_auth}
use kerux.Util.AddEvent.{Server}

-- The other crates' part, the configured domain, and the rounds of the state resolver's loops.
pub record Context (J : Type 0) : Type 0 where
  pub serde : Serde J
  pub hashing : Hashing J
  pub argon : Argon
  pub is_server_name : String → Bool
  pub domain : String
  pub rounds : ℕ

-- `unwrap` of the result
abbrev pub valid_or_panic : Checked MatrixId → Outcome MatrixId
valid_or_panic (valid m) = ok m
valid_or_panic (invalid e) = panic

module _ {J : Type 0} where
  -- `db.try_auth(token.0).await?.ok_or(error)?`
  abbrev pub authenticate_or : ErrorKind → Uuid → Exec (Server J) String
  authenticate_or e token = do found ← reads (λ (s : Server J). try_auth token s.db); ok_or found e

  abbrev pub authenticate : Uuid → Exec (Server J) String
  authenticate token = authenticate_or unknown_token token

  -- `MatrixId::new(&username, &state.config.domain).unwrap()`
  abbrev pub own_id : Context J → String → Exec (Server J) MatrixId
  own_id cx username = reads (λ _. valid_or_panic (new cx.is_server_name username cx.domain))

  -- The access checks that most handlers start with.
  abbrev pub signed_in : Context J → Uuid → Exec (Server J) MatrixId
  signed_in cx token = do username ← authenticate token; own_id cx username
