-- ===== src/Storage/Mem/Rooms.antt =====
-- storage/mem.rs: the events of the rooms, and the queries over them.
pub mod Queries
pub mod Append
pub mod Heads
mod Tests
use kerux.Prelude.{ℕ, ◌+◌, ◌-◌, String, Bool, true, false, ◌&&◌, not, Option, none, some}
use kerux.Prelude.{List, [], ◌∷◌, ◌++◌, map}
use kerux.Prelude.Tests.{ltb, if◌then◌else◌}
use kerux.Prelude.Equality.{◌==◌, string_eq}
use kerux.Prelude.Lists.{length, take, drop, is_empty, keep, find}
use kerux.Prelude.Maps.{lookup, insert}
use kerux.Prelude.Ints.{ℤ, pos, negsuc, max_ℤ}
use kerux.Errors.{Outcome, ok, err, panic, room_not_found, ◌>>=◌}
use kerux.Exec
use kerux.Exec.{Exec}
use kerux.Events.Content.{EventContent, create, Serde}
use kerux.Events.Pdu.{VersionedPdu, StoredPdu, Hashing, event_content, room_id, prev_events, depth}
use kerux.Events.Pdu.{event_id}
use kerux.Storage.Query.{QueryType, timeline, state, EventQuery, is_timeline, matches}
use kerux.Storage.Mem.{Room, MemStorage, new_room}

module _ {J : Type 0} where
  abbrev pub is_create : EventContent J → Bool
  is_create (create c) = true
  is_create _ = false

  abbrev pub push_event : StoredPdu J → Room J → Room J
  push_event pdu room = record room { events = room.events ++ (pdu ∷ []) }

  -- One round of the loop of `add_pdus`: a create event first puts an empty room in the map, in
  -- place of any that was there.
  unfoldable pub add_pdu : StoredPdu J → Exec (MemStorage J) (Unit {0})
  add_pdu pdu db =
      let id = room_id pdu.inner in
      let rooms =
        if is_create (event_content pdu.inner) then insert id new_room db.rooms else db.rooms in
      elim (lookup id rooms) [
        | none ↦ (err room_not_found, record db { rooms = rooms })
        | some room ↦ (ok tt, record db { rooms = insert id (push_event pdu room) rooms })
      ]

  -- What was pushed before an error stays.
  unfoldable pub add_pdus : List (StoredPdu J) → Exec (MemStorage J) (Unit {0})
  add_pdus [] db = (ok tt, db)
  add_pdus (pdu ∷ pdus) db = Exec.◌>>◌ (add_pdu pdu) (add_pdus pdus) db

  -- `db.rooms.get(room_id).ok_or(RoomNotFound)?`
  abbrev pub find_room : String → MemStorage J → Outcome (Room J)
  find_room id db = elim (lookup id db.rooms) [ none ↦ err room_not_found | some r ↦ ok r ]

  -- `iter().map(depth).max().unwrap_or(-1)`
  unfoldable pub max_depth : List (StoredPdu J) → ℤ
  max_depth [] = negsuc 0
  max_depth (e ∷ []) = depth e.inner
  max_depth (e ∷ f ∷ es) = max_ℤ (depth e.inner) (max_depth (f ∷ es))

  unfoldable pub get_rooms : MemStorage J → Outcome (List String)
  get_rooms db = ok (map (λ (id, room). id) db.rooms)

-- `slice.get(from..=to)`
unfoldable pub get_range {ℓ} : {A : Type ℓ} → ℕ → ℕ → List A → Option (List A)
get_range from to xs =
    if ltb (to + 1) from
    then none
    else if ltb (length xs) (to + 1)
    then none
    else some (take (to + 1 - from) (drop from xs))

module _ {J : Type 0} (S : Serde J) (H : Hashing J) where
  abbrev pub id_of : StoredPdu J → String
  id_of pdu = event_id S H pdu.inner

  -- The two nested loops of `get_prev_events`: they strike out what an event refers to.
  unfoldable pub strike : List String → List (StoredPdu J) → List (StoredPdu J)
  strike [] heads = heads
  strike (prev ∷ prevs) heads = strike prevs (keep (λ pdu. not (id_of pdu == prev)) heads)

  unfoldable pub strike_all : List (StoredPdu J) → List (StoredPdu J) → List (StoredPdu J)
  unfolding strike
  strike_all [] heads = heads
  strike_all (e ∷ es) heads = strike_all es (strike (prev_events e.inner) heads)

  unfoldable pub get_prev_events : String → MemStorage J → Outcome (List String × ℤ)
  get_prev_events id db = do
    room ← find_room id db
    let heads = strike_all room.events room.events
    ok (map id_of heads, max_depth heads)

  unfoldable pub get_pdu : String → String → MemStorage J → Outcome (Option (StoredPdu J))
  get_pdu id event db = elim (lookup id db.rooms) [
    | none ↦ ok none
    | some room ↦ ok (find (λ pdu. id_of pdu == event) room.events)
  ]

module _ {J : Type 0} (S : Serde J) where
  -- `range.iter().filter(|pdu| query.matches(..))`
  unfoldable pub filter_matches : EventQuery J → List (StoredPdu J) → Outcome (List (StoredPdu J))
  filter_matches q [] = ok []
  filter_matches q (pdu ∷ pdus) = do
    hit ← matches S q pdu.inner
    rest ← filter_matches q pdus
    ok (if hit then pdu ∷ rest else rest)

  -- `to.unwrap_or(events.len() - 1)`; the subtraction overflows on an empty room.
  abbrev pub last_index : List (StoredPdu J) → Option ℕ → Outcome ℕ
  last_index events (some to) = ok to
  last_index [] none = panic
  last_index (e ∷ events) none = ok (length events)

  -- One look at the room's events, from an index up to one, or up to the last.
  unfoldable pub scan :
      EventQuery J → ℕ → Option ℕ → MemStorage J → Outcome (List (StoredPdu J) × ℕ)
  scan q from to db = do
    room ← find_room q.room_id db
    last ← last_index room.events to
    found ← (elim (get_range from last room.events) [
      | none ↦ ok []
      | some range ↦ filter_matches q range
    ])
    ok (found, last)

  abbrev pub bounds : QueryType → ℕ × Option ℕ
  bounds (timeline from to) = (from, to)
  bounds (state at keys not_keys) = (0, at)

  -- The first half of `query_pdus` ends the query, or has it wait for a notification and look
  -- again from the last index that it saw.
  pub data Progress : Type 0 where
    finished : List (StoredPdu J) → ℕ → Progress
    waiting : ℕ → Progress

  unfoldable pub query_pdus_start : EventQuery J → Bool → MemStorage J → Outcome Progress
  query_pdus_start q wait db = do
    (found, last) ← scan q (bounds q.query_type).0 (bounds q.query_type).1 db
    ok (
        if wait && (is_empty found && is_timeline q.query_type)
        then waiting last
        else finished found last)

  -- The second half, on the storage as it is when the query wakes up.
  pub query_pdus_resume : EventQuery J → ℕ → MemStorage J → Outcome (List (StoredPdu J) × ℕ)
  query_pdus_resume q from db = scan q from none db

  -- A query that finds `db`, and `later` if it had to wait.
  unfoldable pub query_pdus :
      EventQuery J → Bool → MemStorage J → MemStorage J → Outcome (List (StoredPdu J) × ℕ)
  query_pdus q wait db later = do
    progress ← query_pdus_start q wait db
    (elim progress [
      | finished found last ↦ ok (found, last)
      | waiting from ↦ query_pdus_resume q from later
    ])
