-- ===== src/Fixtures.antt =====
-- A small room and stand-ins for the other crates, at which the theorems are tried. JSON values are
-- texts, and a PDU's identifier is its origin behind a dollar sign.
use kerux.Prelude.{String, Bool, true, Option, none, some, List, [], ◌∷◌}
use kerux.Prelude.Equality.{string_eq}
use kerux.Prelude.Ints.{pos}
use kerux.Errors.{Outcome, ok, err, bad_json}
use kerux.Mxid.{MatrixId}
use kerux.Events.Room.{Membership, PowerLevels}
use kerux.Events.Content.{EventContent, create, member, power_levels, name, Serde}
use kerux.Events.Pdu.{VersionedPdu, v4, StoredPdu, pass, Hashing}
use kerux.Storage.Mem.{MemStorage, Room, User}
use kerux.Storage.Mem.Accounts.{Argon}
use kerux.Storage.Query.{default_profile}
use kerux.Storage.Reader.{Reader, mem_reader}
use kerux.State.{State}
use kerux.Util.AddEvent.{Server}
use kerux.ClientApi.{Context}
use kerux.Prelude.Equality.{pair_eq, option_eq, nat_eq}
use kerux.Prelude.Maps.{contains_key, lookup, insert}
use kerux.Mxid.{mxid_eq, try_from, validate_all, validate_parts, validate_pieces, domain}
use kerux.Mxid.Text.{split, any_char, starts_with_char, skip_first, after_first}
use kerux.Events.Room.{membership_eq, join_rule_eq}
use kerux.Events.Levels
use kerux.Events.Content.{get_type}
use kerux.Events.Pdu.{
  event_id, event_id_v4, redact_v4, redact_content, redact_create, redact_member,
}
use kerux.Events.Pdu.{redact_levels}
use kerux.Storage.Mem.Rooms.{get_pdu}
use kerux.State.{get, get_content}
use kerux.Validate.Auth.{auth_check_v1, check_create, check_with_auth_events, load_auth_events}
use kerux.Validate.Auth.{current_levels, check_other, check_content, check_levels}
use kerux.Validate.Changes.{levels_denied}
use kerux.Validate.Changes.{
  level_denied, entry_denied, entries_denied, removals_denied, users_denied,
}
use kerux.Validate.Auth.{membership_in, check_member, check_join, check_invite, check_ban}
use kerux.Validate.Auth.{check_leave, check_kick, check_first_join, check_other_join}

-- What a run of the rules on these fixtures computes through.
unfoldable pub runs : Unit {0}
unfolding auth_check_v1 check_create check_with_auth_events load_auth_events current_levels
    check_other check_content check_levels levels_denied level_denied entry_denied entries_denied
    removals_denied users_denied membership_in check_member check_join check_invite check_ban
    check_leave check_kick check_first_join check_other_join get get_content get_pdu get_type
    event_id event_id_v4 redact_v4 redact_content redact_create redact_member redact_levels
    contains_key lookup string_eq domain split any_char starts_with_char skip_first after_first
    try_from validate_all validate_parts validate_pieces insert pair_eq option_eq membership_eq
    join_rule_eq mxid_eq nat_eq Levels.ban Levels.invite Levels.kick Levels.redact
    Levels.events_default Levels.state_default Levels.users_default Levels.get_user_level
    Levels.get_event_level native.Mathlib.Decide.ℕ_discrete
runs = tt

abbrev refuse : {A : Type 0} → String → Outcome A
refuse json = err (bad_json json)

abbrev pub serde : Serde String
serde = record {
  json_eq = string_eq;
  as_object = λ json. none;
  get = λ json key. some json;
  as_str = λ json. some json;
  empty_object = "{}";
  object = λ fields. "{..}";
  string = λ s. s;
  from_create = λ c. "create";
  from_join_rules = λ c. "join_rules";
  from_history_visibility = λ c. "history_visibility";
  from_guest_access = λ c. "guest_access";
  from_name = λ c. "name";
  from_topic = λ c. "topic";
  from_power_levels = λ c. "power_levels";
  from_member = λ c. "member";
  from_redaction = λ c. "redaction";
  to_create = refuse;
  to_join_rules = refuse;
  to_history_visibility = refuse;
  to_guest_access = refuse;
  to_name = refuse;
  to_topic = refuse;
  to_power_levels = refuse;
  to_member = refuse;
  to_redaction = refuse;
}

abbrev pub hashing : Hashing String
hashing = record {
  unhashed_json = λ u. some u.origin;
  pdu_json = λ p. p.origin;
  sha256_base64 = λ text. text;
}

abbrev pub argon : Argon
argon = record {
  hash_encoded = λ password salt. ok password;
  verify_encoded = λ hash password. some true;
}

abbrev pub any_server : String → Bool
any_server d = true

abbrev pub alice : MatrixId
alice = record { inner = "@alice:x" }

abbrev pub bob : MatrixId
bob = record { inner = "@bob:x" }

abbrev pub room_x : String
room_x = "!r:x"

abbrev pub make :
    String
    → MatrixId
    → EventContent String
    → Option String
    → List String
    → List String
    → VersionedPdu String
make origin user content key prevs auths = v4 (record {
  event_content = content;
  room_id = room_x;
  sender = user;
  state_key = key;
  unsigned = none;
  redacts = none;
  origin = origin;
  origin_server_ts = pos 0;
  prev_events = prevs;
  depth = pos 0;
  auth_events = auths;
  hashes = record { sha256 = "" };
  signatures = some [];
})

abbrev pub created : EventContent String
created =
    create (record { creator = alice; room_version = some "4"; predecessor = none; extra = [] })

abbrev pub membership : Membership → EventContent String
membership m =
    member (record { avatar_url = none; displayname = none; membership = m; is_direct = none })

abbrev pub old_levels : PowerLevels
old_levels = record {
  ban = none;
  invite = none;
  kick = none;
  redact = none;
  events = [];
  events_default = none;
  state_default = none;
  users = (alice, 100) ∷ [];
  users_default = none;
  notifications = none;
}

-- Bans get harder.
abbrev pub new_levels : PowerLevels
new_levels = record old_levels { ban = some 60 }

abbrev pub create_pdu : VersionedPdu String
create_pdu = make "c" alice created (some "") [] []

abbrev pub join_pdu : VersionedPdu String
join_pdu = make "j" alice (membership Membership.join) (some "@alice:x") ("$c" ∷ []) ("$c" ∷ [])

abbrev pub levels_pdu : VersionedPdu String
levels_pdu = make "p" alice (power_levels old_levels) (some "") ("$j" ∷ []) ("$c" ∷ "$j" ∷ [])

abbrev pub change_pdu : VersionedPdu String
change_pdu =
    make "q" alice (power_levels new_levels) (some "") ("$p" ∷ []) ("$c" ∷ "$p" ∷ "$j" ∷ [])

abbrev pub name_pdu : VersionedPdu String
name_pdu =
    make "n" alice (name (record { name = some "one" })) (some "") ("$p" ∷ [])
      ("$c" ∷ "$p" ∷ "$j" ∷ [])

abbrev pub passed : VersionedPdu String → StoredPdu String
passed pdu = record { inner = pdu; auth_status = pass }

abbrev pub events : List (StoredPdu String)
events = passed create_pdu ∷ passed join_pdu ∷ passed levels_pdu ∷ []

abbrev pub the_room : Room String
the_room = record { events = events; ephemeral = []; typing = []; notify_send = 0 }

abbrev pub the_user : User String
the_user = record {
  username = "alice";
  password_hash = "pw";
  profile = default_profile;
  account_data = [];
}

abbrev pub db : MemStorage String
db = record {
  rooms = (room_x, the_room) ∷ [];
  users = the_user ∷ [];
  access_tokens = (7, "alice") ∷ [];
  batches = [];
  txn_ids = [];
}

abbrev pub reader : Reader String
reader = mem_reader serde hashing db

abbrev pub room_state : State
room_state = record {
  room_id = room_x;
  map =
      (("m.room.create", ""), "$c")
      ∷ (("m.room.member", "@alice:x"), "$j")
      ∷ (("m.room.power_levels", ""), "$p")
      ∷ [];
}

abbrev pub server : Server String
server = record { db = db; cache = [] }

abbrev pub context : Context String
context = record {
  serde = serde;
  hashing = hashing;
  argon = argon;
  is_server_name = any_server;
  domain = "x";
  rounds = 9;
}
