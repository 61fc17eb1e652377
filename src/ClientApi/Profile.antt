-- ===== src/ClientApi/Profile.antt =====
-- client_api/user.rs and client_api/ephemeral.rs: profiles, and typing notifications.
mod Tests
use kerux.Prelude.{ℕ, String, Bool, true, false, ◌&&◌, not, Option, none, some, List, [], ◌∷◌}
use kerux.Prelude.Tests.{if◌then◌else◌}
use kerux.Prelude.Equality.{◌==◌, string_eq, pair_eq}
use kerux.Errors.{ErrorKind, Outcome, ok, err, panic, forbidden, not_found, unimplemented, unknown}
use kerux.Errors.{bad_json}
use kerux.Exec.{Exec, reads, pure, raise, ok_or, expect, ◌>>=◌, ◌>>◌}
use kerux.Mxid.{MatrixId, MxidError, Checked, valid, invalid, new, localpart, domain}
use kerux.Events.Content.{Serde}
use kerux.Storage.Query.{UserProfile}
use kerux.Storage.Mem.{Uuid, Instant}
use kerux.Storage.Mem.Accounts
use kerux.Storage.Mem.Ephemeral.{set_typing}
use kerux.Util.AddEvent.{Server, on_db}
use kerux.ClientApi.{Context, authenticate, authenticate_or}

-- A user whom the directory shows; its profile's fields as `UserProfile` has them.
pub record DirectoryUser : Type 0 where
  pub user_id : MatrixId
  pub profile : UserProfile

pub record UserDirSearchResponse : Type 0 where
  pub results : List DirectoryUser
  pub limited : Bool

module _ {J : Type 0} (cx : Context J) where
  abbrev elsewhere : ErrorKind
  elsewhere = unknown "User does not live on this homeserver"

  -- `if user_id.domain() != state.config.domain { return Err(..) }`
  abbrev local_or : ErrorKind → MatrixId → Exec (Server J) (Unit {0})
  local_or e user_id = do
    home ← expect (domain user_id)
    (if home == cx.domain then pure tt else raise e)

  abbrev profile_of : MatrixId → Exec (Server J) UserProfile
  profile_of user_id = do
    found ← reads (λ (s : Server J). Accounts.get_profile (localpart user_id) s.db)
    expect found

  pub get_avatar_url : MatrixId → Exec (Server J) String
  get_avatar_url user_id = do
    local_or unimplemented user_id
    profile ← profile_of user_id
    ok_or profile.avatar_url not_found

  pub get_display_name : MatrixId → Exec (Server J) String
  get_display_name user_id = do
    local_or elsewhere user_id
    profile ← profile_of user_id
    ok_or profile.displayname not_found

  unfoldable pub get_profile : MatrixId → Exec (Server J) UserProfile
  get_profile user_id = do local_or elsewhere user_id; profile_of user_id

  -- The sender of the request is the user whose profile it sets.
  abbrev own_profile : Uuid → MatrixId → Exec (Server J) String
  own_profile token req_id = do
    username ← authenticate token
    (if localpart req_id == username then pure tt else raise forbidden)
    local_or elsewhere req_id
    pure username

  -- A field of the body, as a text.
  abbrev text_field : J → String → ErrorKind → ErrorKind → Exec (Server J) String
  text_field body field missing not_text = do
    value ← ok_or (cx.serde.get body field) missing
    ok_or (cx.serde.as_str value) not_text

  unfoldable pub set_avatar_url : Uuid → MatrixId → J → Exec (Server J) (Unit {0})
  set_avatar_url token req_id body = do
    username ← own_profile token req_id
    avatar_url ←
        text_field body "avatar_url" (bad_json "no avatar_url field")
          (bad_json "avatar_url should be a string")
    on_db (Accounts.set_avatar_url username avatar_url)

  unfoldable pub set_display_name : Uuid → MatrixId → J → Exec (Server J) (Unit {0})
  set_display_name token req_id body = do
    username ← own_profile token req_id
    display_name ←
        text_field body "displayname" (bad_json "no displayname field")
          (bad_json "displayname should be a string")
    on_db (Accounts.set_display_name username display_name)

  -- The error is shown by `show`.
  abbrev searched_id : (MxidError → String) → Checked MatrixId → Outcome MatrixId
  searched_id show (valid m) = ok m
  searched_id show (invalid e) = err (unknown (show e))

  abbrev results_of : MatrixId → Option UserProfile → List DirectoryUser
  results_of user_id none = []
  results_of user_id (some p) = record { user_id = user_id; profile = p } ∷ []

  -- The term is a whole localpart; the limit of the request is read by nothing.
  pub search_user_directory : (MxidError → String) → String → Exec (Server J) UserDirSearchResponse
  search_user_directory show search_term = do
    user_id ← reads (λ _. searched_id show (new cx.is_server_name search_term cx.domain))
    found ← reads (λ (s : Server J). Accounts.get_profile (localpart user_id) s.db)
    pure (record { results = results_of user_id found; limited = false })

  -- `typing` of client_api/ephemeral.rs
  unfoldable pub typing : Instant → Uuid → String → MatrixId → Bool → ℕ → Exec (Server J) (Unit {0})
  typing now token room_id user_id is_typing timeout = do
    username ← authenticate_or forbidden token
    home ← expect (domain user_id)
    (if username == localpart user_id && cx.domain == home then pure tt else raise forbidden)
    on_db (set_typing now room_id user_id is_typing timeout)
