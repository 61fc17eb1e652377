-- ===== src/ClientApi/Tests.antt =====
-- client_api/: the theorems at a concrete server.
use kerux.Prelude.{String, ◌≡◌, ◌≢◌, refl, none, some, [], ◌∷◌}
use kerux.Prelude.Ints.{pos}
use kerux.Errors.{ok, err, txn_id_exists, unknown_token}
use kerux.Mxid.{MatrixId, new, localpart}
use kerux.Mxid.Text.{trim_start}
use kerux.Events.Room.{Membership, membership_eq}
use kerux.Events.Pdu.{Event, to_client_format}
use kerux.Storage.Query.{matches, json_matches, is_timeline}
use kerux.Storage.Mem.Accounts.{try_auth}
use kerux.Storage.Mem.Rooms.{get_range, filter_matches, scan, query_pdus_start, query_pdus}
use kerux.Storage.Reader
use kerux.ClientApi.Room.{CreateRoomRequest, RoomVisibility, create_room}
use kerux.ClientApi.RoomEvents.{
  get_event, send_event, get_state, get_state_event_inner, get_members,
}
use kerux.ClientApi.RoomEvents.{MembersRequest, send_state_event}
use kerux.ClientApi.Room.{invite, join_by_id_or_alias}
use kerux.ClientApi.Access.{SignedIn, IsJoined}
use kerux.ClientApi.Reading.{read, event, members, AreOf, read-IsJoined}
use kerux.ClientApi.Creation.{create_room_stops}
use kerux.ClientApi.Sending.{send_event_twice}
use kerux.Fixtures.{runs, context, server, room_x, levels_pdu, create_pdu, join_pdu, bob}

reading_runs : Unit {0}
unfolding runs trim_start localpart new to_client_format matches json_matches is_timeline try_auth
    get_range filter_matches scan query_pdus_start query_pdus Reader.query_events
    Reader.get_membership Reader.get_full_state Reader.get_state_event get_event get_state
    get_state_event_inner get_members
reading_runs = tt

abbrev shown : Event String
shown = to_client_format levels_pdu

send_event_twice_example :
    (send_event context
      (pos 2)
      20
      7
      room_x
      "m.room.message"
      "txn"
      "again"
      (send_event context (pos 1) 10 7 room_x "m.room.message" "txn" "hello" server).1).0
    ≡ err txn_id_exists
unfolding runs
send_event_twice_example =
    send_event_twice 7 "alice" "txn" context (pos 1) (pos 2) 10 20 room_x room_x "m.room.message"
      "m.room.message" "hello" "again" server refl

abbrev request : CreateRoomRequest String
request = record {
  visibility = RoomVisibility.private;
  name = none;
  topic = none;
  invite = none;
  room_version = none;
  creation_content = none;
  initial_state = none;
  preset = none;
  is_direct = none;
  power_level_content_override = none;
}

create_room_stops_example : (create_room context (pos 1) 7 "!new:x" request server).0 ≢ ok "!new:x"
create_room_stops_example = create_room_stops context (pos 1) 7 "!new:x" "!new:x" request server

abbrev anybody : MembersRequest
anybody = record { membership = some Membership.join; not_membership = none }

read_state :
    ((get_state context 7 room_x server).0
      ≡ ok (to_client_format create_pdu ∷ to_client_format join_pdu ∷ shown ∷ []))
    × ((get_state_event_inner context 7 room_x "m.room.power_levels" "" server).0 ≡ ok shown)
    × ((get_members context 7 room_x anybody server).0 ≡ ok (to_client_format join_pdu ∷ []))
    × ((get_state context 8 room_x server).0 ≡ err unknown_token)
unfolding reading_runs
read_state = (refl, refl, refl, refl)

shown_members :
    (read context (members anybody) 7 room_x server).0 ≡ ok (to_client_format join_pdu ∷ [])
unfolding reading_runs read
shown_members = refl

read-IsJoined_example :
    (user : MatrixId) × SignedIn context 7 user server
    × IsJoined context user room_x server
    × AreOf context (members anybody) room_x server (to_client_format join_pdu ∷ [])
    × ((read context (members anybody) 7 room_x server).1 ≡ server)
read-IsJoined_example =
    read-IsJoined context (members anybody) 7 room_x (to_client_format join_pdu ∷ []) server
      shown_members

read_event : (read context (event "$p") 7 room_x server).0 ≡ ok (shown ∷ [])
unfolding reading_runs read
read_event = refl

-- With an unknown token nothing is written.
strangers :
    (invite context (pos 1) 8 room_x bob server ≡ (err unknown_token, server))
    × (join_by_id_or_alias context (pos 1) 8 room_x server ≡ (err unknown_token, server))
    × (send_state_event context (pos 1) 8 room_x "m.room.name" "" "one" server
        ≡ (err unknown_token, server))
unfolding reading_runs invite join_by_id_or_alias send_state_event
strangers = (refl, refl, refl)
