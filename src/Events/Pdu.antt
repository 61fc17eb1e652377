-- ===== src/Events/Pdu.antt =====
-- events/room_version/ and events/pdu.rs: PDUs of room version 4, hashed and unhashed, the client
-- format, stored PDUs, and the redaction that their identifiers are hashed over.
use Prim.Native.String.{◌++◌ as ◌<>◌}
use kerux.Prelude.{String, Bool, true, false, Option, none, some, List, []}
use kerux.Prelude.Ints.{ℤ}
use kerux.Prelude.Maps.{HashMap}
use kerux.Errors.{Outcome, ok, panic}
use kerux.Mxid.{MatrixId}
use kerux.Events.Room.{Create, PowerLevels}
use kerux.Events.Room.{Member}
use kerux.Events.Content.{EventContent, create, join_rules, history_visibility, guest_access, name}
use kerux.Events.Content.{topic, power_levels, member, redaction, unknown, Serde}

pub record EventHash : Type 0 where
  pub sha256 : String

pub record UnhashedPdu (J : Type 0) : Type 0 where
  pub event_content : EventContent J
  pub room_id : String
  pub sender : MatrixId
  pub state_key : Option String
  pub unsigned : Option J
  pub redacts : Option String
  pub origin : String
  pub origin_server_ts : ℤ
  pub prev_events : List String
  pub depth : ℤ
  pub auth_events : List String

pub record PduV4 (J : Type 0) : Type 0 where
  pub event_content : EventContent J
  pub room_id : String
  pub sender : MatrixId
  pub state_key : Option String
  pub unsigned : Option J
  pub redacts : Option String
  pub origin : String
  pub origin_server_ts : ℤ
  pub prev_events : List String
  pub depth : ℤ
  pub auth_events : List String
  pub hashes : EventHash
  pub signatures : Option (HashMap String J)

-- The version enum, with its one variant.
pub data VersionedPdu (J : Type 0) : Type 0 where
  v4 : PduV4 J → VersionedPdu J

pub data AuthStatus : Type 0 where
  pass fail : AuthStatus

pub record StoredPdu (J : Type 0) : Type 0 where
  pub inner : VersionedPdu J
  pub auth_status : AuthStatus

-- `Event` of events/mod.rs, as clients see it.
pub record Event (J : Type 0) : Type 0 where
  pub event_content : EventContent J
  pub sender : MatrixId
  pub room_id : Option String
  pub state_key : Option String
  pub unsigned : Option J
  pub redacts : Option String
  pub origin_server_ts : Option ℤ

-- What PDUs need of other crates: canonical JSON (which may refuse an event that is being built;
-- a built PDU has passed it) and the URL-safe base64 text of a SHA-256 digest.
pub record Hashing (J : Type 0) : Type 0 where
  pub unhashed_json : UnhashedPdu J → Option String
  pub pdu_json : PduV4 J → String
  pub sha256_base64 : String → String

-- `PowerLevels`'s `Redactable`.
unfoldable pub redact_levels : PowerLevels → PowerLevels
redact_levels p = record p { invite = none; notifications = none }

unfoldable pub redact_member : Member → Member
redact_member m = record m { avatar_url = none; displayname = none; is_direct = none }

module _ {J : Type 0} where
  unfoldable pub redact_create : Create J → Create J
  redact_create c = record c { room_version = none; predecessor = none; extra = [] }

  -- The fields of the one variant, as the getters of `VersionedPdu` reach them.
  abbrev pub pdu : VersionedPdu J → PduV4 J
  pdu (v4 p) = p

  abbrev pub event_content : VersionedPdu J → EventContent J
  event_content p = (pdu p).event_content

  abbrev pub room_id : VersionedPdu J → String
  room_id p = (pdu p).room_id

  abbrev pub sender : VersionedPdu J → MatrixId
  sender p = (pdu p).sender

  abbrev pub state_key : VersionedPdu J → Option String
  state_key p = (pdu p).state_key

  abbrev pub origin_server_ts : VersionedPdu J → ℤ
  origin_server_ts p = (pdu p).origin_server_ts

  abbrev pub prev_events : VersionedPdu J → List String
  prev_events p = (pdu p).prev_events

  abbrev pub auth_events : VersionedPdu J → List String
  auth_events p = (pdu p).auth_events

  abbrev pub depth : VersionedPdu J → ℤ
  depth p = (pdu p).depth

  unfoldable pub did_pass_auth : StoredPdu J → Bool
  did_pass_auth p = elim p.auth_status [ pass ↦ true | fail ↦ false ]

  unfoldable pub to_client_format : VersionedPdu J → Event J
  to_client_format (v4 p) = record {
    event_content = p.event_content;
    room_id = some p.room_id;
    sender = p.sender;
    state_key = p.state_key;
    unsigned = p.unsigned;
    redacts = p.redacts;
    origin_server_ts = some p.origin_server_ts;
  }

module _ {J : Type 0} (S : Serde J) where
  -- `EventContent::redact`, by the `Redactable` of each content.
  unfoldable pub redact_content : EventContent J → EventContent J
  redact_content (create c) = create (redact_create c)
  redact_content (join_rules c) = join_rules c
  redact_content (history_visibility c) = history_visibility c
  redact_content (guest_access c) = guest_access (record { guest_access = none })
  redact_content (name c) = name (record { name = none })
  redact_content (topic c) = topic (record { topic = none })
  redact_content (power_levels c) = power_levels (redact_levels c)
  redact_content (member c) = member (redact_member c)
  redact_content (redaction c) = redaction (record { reason = none })
  redact_content (unknown ty body) = unknown ty S.empty_object

  unfoldable pub redact_v4 : PduV4 J → PduV4 J
  redact_v4 p = record p {
    event_content = redact_content p.event_content;
    unsigned = none;
    redacts = none;
  }

  unfoldable pub redact_versioned : VersionedPdu J → VersionedPdu J
  redact_versioned (v4 p) = v4 (redact_v4 p)

  unfoldable pub redact_stored : StoredPdu J → StoredPdu J
  redact_stored p = record { inner = redact_versioned p.inner; auth_status = p.auth_status }

  module _ (H : Hashing J) where
    unfoldable pub event_id_v4 : PduV4 J → String
    event_id_v4 p = "$" <> H.sha256_base64 (H.pdu_json (record (redact_v4 p) { signatures = none }))

    unfoldable pub event_id : VersionedPdu J → String
    event_id (v4 p) = event_id_v4 p

module _ {J : Type 0} (H : Hashing J) where
  -- `UnhashedPdu::finalize`
  unfoldable pub finalize : UnhashedPdu J → Outcome (PduV4 J)
  finalize u = elim (H.unhashed_json u) [
    | none ↦ panic
    | some json ↦ ok (record {
      event_content = u.event_content;
      room_id = u.room_id;
      sender = u.sender;
      state_key = u.state_key;
      unsigned = u.unsigned;
      redacts = u.redacts;
      origin = u.origin;
      origin_server_ts = u.origin_server_ts;
      prev_events = u.prev_events;
      depth = u.depth;
      auth_events = u.auth_events;
      hashes = record { sha256 = H.sha256_base64 json };
      signatures = some [];
    })
  ]
