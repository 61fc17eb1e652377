-- ===== src/ClientApi/Refusal.antt =====
-- client_api/: what a token opens that is not known, or no longer.
mod Tests
use kerux.Prelude.{ℕ, String, ◌≡◌, refl, ap, ◌∙◌, Bool, Option, none, some, arith}
use kerux.Prelude.Equality.{nat_eq, string_eq, option_eq, ==_refl}
use kerux.Prelude.Maps.{lookup, NodupKeys}
use kerux.Prelude.Ints.{ℤ}
use kerux.Errors.{Outcome, ok, err, ErrorKind, unknown_token, forbidden}
use kerux.Exec.{Exec, pure, ◌>>◌}
use kerux.Mxid.{MatrixId}
use kerux.Storage.Mem.{Uuid, Instant}
use kerux.Storage.Mem.Accounts.{try_auth}
use kerux.Storage.Mem.Accounts.Tokens.{
  try_auth-delete_access_token, try_auth-delete_all_access_tokens,
}
use kerux.Storage.Mem.Ephemeral.{Typing}
use kerux.Util.AddEvent.{Server}
use kerux.ClientApi.{Context}
use kerux.ClientApi.Session.{logout, logout_all}
use kerux.ClientApi.Profile.{set_avatar_url, set_display_name, typing}
use kerux.ClientApi.Room.{CreateRoomRequest, create_room, invite, join_by_id_or_alias}
use kerux.ClientApi.RoomEvents.{send_event, send_state_event}
use kerux.ClientApi.RoomEvents.{get_event, get_state_event_inner, get_state, get_members}
use kerux.ClientApi.Reading
use kerux.ClientApi.Reading.{Reading, read}
use kerux.ClientApi.Sync.{SyncRequest}
use kerux.ClientApi.Sync.Waiting.{Wake, sync}

-- The requests that come with a token, but for those that end its use.
pub data Call (J : Type 0) : Type 0 where
  reads_of : String → Reading → Call J
  syncs : Instant → Wake J → String → SyncRequest → Call J
  sends : String → String → String → J → Call J
  sends_state : String → String → String → J → Call J
  creates : String → CreateRoomRequest J → Call J
  invites : String → MatrixId → Call J
  joins : String → Call J
  sets_avatar_url sets_display_name : MatrixId → J → Call J
  types : String → MatrixId → Bool → ℕ → Call J

-- `typing` has an error of its own.
abbrev pub refusal : {J : Type 0} → Call J → ErrorKind
refusal (types room user is_typing timeout) = forbidden
refusal _ = unknown_token

module _ {J : Type 0} (cx : Context J) (to_value : Typing → J) (now : ℤ) (clock : Instant) where
  abbrev done : {A : Type 0} → Exec (Server J) A → Exec (Server J) (Unit {0})
  done m = m >> pure tt

  -- The handler of a request, without its answer.
  unfoldable pub serve : Call J → Uuid → Exec (Server J) (Unit {0})
  serve (reads_of room what) token = done (read cx what token room)
  serve (syncs woken_at wake next_batch req) token =
      done (sync cx to_value clock woken_at wake next_batch token req)
  serve (sends room kind txn_id body) token =
      done (send_event cx now clock token room kind txn_id body)
  serve (sends_state room kind key body) token =
      done (send_state_event cx now token room kind key body)
  serve (creates room req) token = done (create_room cx now token room req)
  serve (invites room user) token = invite cx now token room user
  serve (joins room) token = done (join_by_id_or_alias cx now token room)
  serve (sets_avatar_url user body) token = set_avatar_url cx token user body
  serve (sets_display_name user body) token = set_display_name cx token user body
  serve (types room user is_typing timeout) token =
      typing cx clock token room user is_typing timeout

  refused :
      (call : Call J) (token : Uuid) (s : Server J)
      → try_auth token s.db ≡ ok none
      → serve call token s ≡ (err (refusal call), s)
  unfolding serve read get_event get_state_event_inner get_state get_members sync send_event
      send_state_event create_room invite join_by_id_or_alias set_avatar_url set_display_name typing
  refused (reads_of room (Reading.event id)) token s h = rw h refl
  refused (reads_of room (Reading.state_event kind key)) token s h = rw h refl
  refused (reads_of room Reading.state) token s h = rw h refl
  refused (reads_of room (Reading.members req)) token s h = rw h refl
  refused (syncs woken_at wake next_batch req) token s h = rw h refl
  refused (sends room kind txn_id body) token s h = rw h refl
  refused (sends_state room kind key body) token s h = rw h refl
  refused (creates room req) token s h = rw h refl
  refused (invites room user) token s h = rw h refl
  refused (joins room) token s h = rw h refl
  refused (sets_avatar_url user body) token s h = rw h refl
  refused (sets_display_name user body) token s h = rw h refl
  refused (types room user is_typing timeout) token s h = rw h refl

  -- After a logout its token opens nothing, and after a logout everywhere no token of the same user
  -- does: every request for a room's events or state or for news, every message, state event, new
  -- room, invitation, join, change of profile and typing notification is refused, and changes
  -- nothing. The map of tokens binds each token once.
  pub serve-logout :
      (call : Call J) (token other : Uuid) (s : Server J)
      → NodupKeys s.db.access_tokens
      → lookup other s.db.access_tokens ≡ lookup token s.db.access_tokens
      → (serve call token (logout cx token s).1 ≡ (err (refusal call), (logout cx token s).1))
        × (serve call other (logout_all cx token s).1
            ≡ (err (refusal call), (logout_all cx token s).1))
  unfolding logout logout_all try_auth
  serve-logout call token other s u same = (
    refused call token (logout cx token s).1
        (rw (try_auth-delete_access_token token token s.db, ==_refl token) refl),
    refused call other (logout_all cx token s).1
        (ground (arith, try_auth-delete_all_access_tokens token other s.db u)),
  )
