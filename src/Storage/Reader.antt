-- ===== src/Storage/Reader.antt =====
-- storage/mod.rs: the methods of `Storage` that are defined by others, over a storage as it is
-- read at one moment. `Reader` is what they, the authorization rules and the state resolver ask of
-- a backend.
use kerux.Prelude.{ℕ, String, false, Option, none, some, List, [], ◌∷◌, map}
use kerux.Prelude.Lists.{length, last?}
use kerux.Errors.{Outcome, ok, panic, ◌>>=◌}
use kerux.Mxid.{MatrixId}
use kerux.Events.Room.{Membership}
use kerux.Events.Content.{member, Serde}
use kerux.Events.Pdu.{StoredPdu, Event, Hashing, to_client_format}
use kerux.Storage.Query.{state, EventQuery}
use kerux.Storage.Mem.{MemStorage}
use kerux.Storage.Mem.Rooms.{query_pdus, get_pdu}

pub record Reader (J : Type 0) : Type 0 where
  pub query_pdus : EventQuery J → Outcome (List (StoredPdu J) × ℕ)
  pub get_pdu : String → String → Outcome (Option (StoredPdu J))

-- The in-memory backend: its queries that do not wait.
abbrev pub mem_reader : {J : Type 0} → Serde J → Hashing J → MemStorage J → Reader J
mem_reader S H db = record {
  query_pdus = λ q. query_pdus S q false db db;
  get_pdu = λ id event. get_pdu S H id event db;
}

module _ {J : Type 0} (r : Reader J) where
  unfoldable pub query_events : EventQuery J → Outcome (List (Event J) × ℕ)
  query_events q = do
    (pdus, next_batch) ← r.query_pdus q
    ok (map (λ (p : StoredPdu J). to_client_format p.inner) pdus, next_batch)

  -- A query for the state events of a room, as the methods below build it.
  abbrev pub state_query : String → List String → List String → Option J → EventQuery J
  state_query id keys types json = record {
    query_type = state none keys [];
    room_id = id;
    senders = [];
    not_senders = [];
    types = types;
    not_types = [];
    contains_json = json;
  }

  -- `extract!(EventContent::Member(_), content).unwrap().membership`
  abbrev membership_of : Option (Event J) → Outcome (Option Membership)
  membership_of none = ok none
  membership_of (some e) = elim e.event_content [ member m ↦ ok (some m.membership) | _ ↦ panic ]

  unfoldable pub get_membership : MatrixId → String → Outcome (Option Membership)
  unfolding query_events
  get_membership user_id id = do
    (events, _) ← query_events (state_query id (user_id.inner ∷ []) ("m.room.member" ∷ []) none)
    membership_of (last? events)

  unfoldable pub get_full_state : String → Outcome (List (Event J))
  unfolding query_events
  get_full_state id = do (events, _) ← query_events (state_query id [] [] none); ok events

  unfoldable pub get_state_event : String → String → String → Outcome (Option (Event J))
  unfolding query_events
  get_state_event id event_type state_key = do
    (events, _) ← query_events (state_query id (state_key ∷ []) (event_type ∷ []) none)
    ok (last? events)

  -- `json!({"membership": ..})` is built by the parameter `S`.
  unfoldable pub get_room_member_counts : Serde J → String → Outcome (ℕ × ℕ)
  unfolding query_events
  get_room_member_counts S id = do
    (joined, _) ← query_events (
        state_query id [] ("m.room.member" ∷ [])
          (some (S.object (("membership", S.string "join") ∷ []))))
    (invited, _) ← query_events (
        state_query id [] ("m.room.member" ∷ [])
          (some (S.object (("membership", S.string "invite") ∷ []))))
    ok (length joined, length invited)
