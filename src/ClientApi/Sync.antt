-- ===== src/ClientApi/Sync.antt =====
-- client_api/room_events.rs: what `sync` asks and answers, and its loop over the rooms of the user.
-- Where nothing has happened in them it waits, in Sync/Waiting.
pub mod Waiting
pub mod Held
pub mod Shown
pub mod Access
pub mod Delivery
mod Tests
use kerux.Prelude.{
  ℕ, zero, suc, ◌+◌, String, Bool, true, false, ◌&&◌, ◌||◌, not, Option, none, some,
}
use kerux.Prelude.{List, [], ◌∷◌, map}
use kerux.Prelude.Tests.{if◌then◌else◌}
use kerux.Prelude.Equality.{◌==◌, string_eq}
use kerux.Prelude.Lists.{is_empty, contains, keep}
use kerux.Prelude.Maps.{HashMap, HashSet, lookup, insert, set_insert, set_remove}
use kerux.Errors.{Outcome, ok, panic, ◌>>=◌}
use kerux.Exec
use kerux.Exec.{Exec, reads, pure}
use kerux.Mxid.{MatrixId}
use kerux.Events.Room.{Membership, membership_eq, unwrap_or}
use kerux.Events.Content.{EventContent}
use kerux.Events.Pdu.{Event}
use kerux.Storage.Query.{EventQuery, timeline, Batch, default_batch}
use kerux.Storage.Mem.{Uuid, Instant, MemStorage}
use kerux.Storage.Mem.Accounts.{get_batch, set_batch}
use kerux.Storage.Mem.Rooms.{get_rooms, query_pdus, get_pdu}
use kerux.Storage.Mem.Ephemeral.{Typing, get_all_ephemeral}
use kerux.Storage.Reader
use kerux.Storage.Reader.{Reader, mem_reader}
use kerux.Util.AddEvent.{Server, on_db}
use kerux.ClientApi.{Context, signed_in}

-- `filter` and `set_presence` are read by nothing.
pub record SyncRequest : Type 0 where
  pub since : Option String
  pub full_state : Bool

pub record RoomSummary : Type 0 where
  pub heroes : Option (List String)
  pub joined_member_count : ℕ
  pub invited_member_count : ℕ

-- `KvPair`: the content and the type.
pub record KvPair (J : Type 0) : Type 0 where
  pub content : J
  pub ty : String

pub record Timeline (J : Type 0) : Type 0 where
  pub events : List (Event J)
  pub limited : Bool
  pub prev_batch : String

-- The account data of a room is always empty, and left out here and in the response.
pub record JoinedRoom (J : Type 0) : Type 0 where
  pub summary : RoomSummary
  pub state : List (Event J)
  pub timeline : Timeline J
  pub ephemeral : List (KvPair J)

pub record StrippedState (J : Type 0) : Type 0 where
  pub content : EventContent J
  pub state_key : String
  pub sender : MatrixId

-- `leave` is always empty.
pub record Rooms (J : Type 0) : Type 0 where
  pub join : HashMap String (JoinedRoom J)
  pub invite : HashMap String (List (StrippedState J))

pub record SyncResponse (J : Type 0) : Type 0 where
  pub next_batch : String
  pub rooms : Option (Rooms J)

-- The variables that the loop over the memberships assigns.
pub record Progress (J : Type 0) : Type 0 where
  pub batch : Batch
  pub rooms : Option (Rooms J)
  pub something_happened : Bool

-- `batch.rooms.get(room_id).map(|v| *v).unwrap_or(0)`
abbrev pub from_of : String → Batch → ℕ
from_of room batch = unwrap_or (lookup room batch.rooms) 0

-- `batch.rooms.insert(room_id.clone(), progress + 1)`
abbrev pub seen_up_to : String → ℕ → Batch → Batch
seen_up_to room progress batch = record batch { rooms = insert room (progress + 1) batch.rooms }

module _ {J : Type 0} where
  abbrev no_rooms : Rooms J
  no_rooms = record { join = []; invite = [] }

  -- `rooms.get_or_insert_with(Default::default)`, and an insertion.
  abbrev pub insert_joined : String → JoinedRoom J → Option (Rooms J) → Option (Rooms J)
  insert_joined room joined rooms =
      let rs = unwrap_or rooms no_rooms in some (record rs { join = insert room joined rs.join })

  abbrev pub insert_invited : String → List (StrippedState J) → Option (Rooms J) → Option (Rooms J)
  insert_invited room events rooms =
      let rs = unwrap_or rooms no_rooms in
      some (record rs { invite = insert room events rs.invite })

  -- `state_key.unwrap()`, for every event of the state of a room.
  unfoldable pub strip : List (Event J) → Outcome (List (StrippedState J))
  strip [] = ok []
  strip (e ∷ es) = do
    rest ← strip es
    (elim e.state_key [
      | none ↦ panic
      | some key ↦
          ok (record { content = e.event_content; state_key = key; sender = e.sender } ∷ rest)
    ])

  -- The rooms of the response that the user is in.
  abbrev pub joined_of : Option (Rooms J) → HashMap String (JoinedRoom J)
  joined_of none = []
  joined_of (some rooms) = rooms.join

  -- The rooms of the response that the user is invited to.
  abbrev pub invited_of : Option (Rooms J) → HashMap String (List (StrippedState J))
  invited_of none = []
  invited_of (some rooms) = rooms.invite

  abbrev pub timeline_query : String → ℕ → EventQuery J
  timeline_query room from = record {
    query_type = timeline from none;
    room_id = room;
    senders = [];
    not_senders = [];
    types = [];
    not_types = [];
    contains_json = none;
  }

  abbrev key_values : HashMap String J → List (KvPair J)
  key_values = map (λ (e : String × J). record { content = e.1; ty = e.0 })

  -- The rooms that the user has a membership in.
  unfoldable pub memberships_of :
      Reader J → MatrixId → List String → Outcome (HashMap String Membership)
  memberships_of r user_id [] = ok []
  memberships_of r user_id (room ∷ rooms) = do
    found ← Reader.get_membership r user_id room
    rest ← memberships_of r user_id rooms
    ok (elim found [ none ↦ rest | some m ↦ (room, m) ∷ rest ])

  module _ (cx : Context J) (to_value : Typing → J) where
    -- A room of the response, with the counts and the ephemeral data as the storage has them.
    unfoldable pub joined_room :
        Instant → MemStorage J → String → List (Event J) → List (Event J) → Outcome (JoinedRoom J)
    joined_room now db room state_events events = do
      (joined, invited) ←
          Reader.get_room_member_counts (mem_reader cx.serde cx.hashing db) cx.serde room
      ephemeral ← get_all_ephemeral to_value now room db
      ok (record {
        summary = record {
          heroes = none;
          joined_member_count = joined;
          invited_member_count = invited;
        };
        state = state_events;
        timeline = record { events = events; limited = false; prev_batch = "empty" };
        ephemeral = key_values ephemeral;
      })

    -- The arm `Membership::Join`.
    unfoldable pub sync_joined :
        Instant → MemStorage J → Bool → String → Progress J → Outcome (Progress J)
    unfolding joined_room
    sync_joined now db full_state room p = do
      let batch = record p.batch { invites = set_remove room p.batch.invites }
      let r = mem_reader cx.serde cx.hashing db
      (events, progress) ← Reader.query_events r (timeline_query room (from_of room batch))
      state_events ← (if full_state then Reader.get_full_state r room else ok [])
      joined ← joined_room now db room state_events events
      ok (record {
        batch = seen_up_to room progress batch;
        rooms = insert_joined room joined p.rooms;
        something_happened =
            p.something_happened || (not (is_empty events) || not (is_empty state_events));
      })

    -- The arm for an invitation that has not been shown.
    unfoldable pub sync_invited : MemStorage J → String → Progress J → Outcome (Progress J)
    unfolding strip
    sync_invited db room p = do
      state_events ← Reader.get_full_state (mem_reader cx.serde cx.hashing db) room
      events ← strip state_events
      ok (record p {
        batch = record p.batch { invites = set_insert room p.batch.invites };
        rooms = insert_invited room events p.rooms;
      })

    abbrev pub sync_room :
        Instant → MemStorage J → Bool → String → Membership → Progress J → Outcome (Progress J)
    sync_room now db full_state room Membership.join p = sync_joined now db full_state room p
    sync_room now db full_state room Membership.invite p =
        if contains p.batch.invites room then ok p else sync_invited db room p
    sync_room now db full_state room _ p = ok p

    unfoldable pub sync_rooms :
        Instant
        → MemStorage J
        → Bool
        → HashMap String Membership
        → Progress J
        → Outcome (Progress J)
    unfolding sync_joined sync_invited
    sync_rooms now db full_state [] p = ok p
    sync_rooms now db full_state ((room, m) ∷ memberships) p = do
      next ← sync_room now db full_state room m p
      sync_rooms now db full_state memberships next

    -- A query that may wait, of a storage that it finds and the one that it wakes up to.
    abbrev pub waiting_reader : MemStorage J → MemStorage J → Reader J
    waiting_reader db later = record {
      query_pdus = λ q. query_pdus cx.serde q true db later;
      get_pdu = λ room event. get_pdu cx.serde cx.hashing room event later;
    }

    -- The branch of `select!` for a query, on the storage that it woke up to.
    unfoldable pub woken :
        Instant → MemStorage J → MemStorage J → String → Progress J → Outcome (Progress J)
    unfolding joined_room
    woken now db later room p = do
      (events, progress) ←
          Reader.query_events (waiting_reader db later) (timeline_query room (from_of room p.batch))
      joined ← joined_room now later room [] events
      ok (record p {
        batch = seen_up_to room progress p.batch;
        rooms = insert_joined room joined p.rooms;
      })
