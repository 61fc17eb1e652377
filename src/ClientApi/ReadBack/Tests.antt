-- ===== src/ClientApi/ReadBack/Tests.antt =====
-- client_api/room_events.rs: a message that is sent to a small room, read and synced.
use kerux.Prelude.{◌+◌, String, ◌≡◌, refl, false, none, some, [], ◌∷◌}
use kerux.Prelude.Equality.{string_eq}
use kerux.Prelude.Lists.{length}
use kerux.Prelude.Maps.{lookup, set_insert}
use kerux.Prelude.Ints.{pos}
use kerux.Errors.{Outcome, ok}
use kerux.Mxid.{MatrixId, localpart, new}
use kerux.Mxid.Text.{trim_start}
use kerux.Events.Content
use kerux.Events.Pdu.{Event, did_pass_auth, finalize, to_client_format}
use kerux.Storage.Query.{fields_match, matches, json_matches, is_timeline}
use kerux.Storage.Mem.Accounts.{try_auth, record_txn}
use kerux.Storage.Mem.Rooms.{
  add_pdu, add_pdus, filter_matches, get_pdu, get_prev_events, get_range, max_depth, query_pdus,
  query_pdus_start, scan, strike, strike_all,
}
use kerux.Storage.Mem.Ephemeral.{Typing, typing_now, get_all_ephemeral, set_typing, change_room}
use kerux.Storage.Reader
use kerux.State.{insert_event}
use kerux.State.Resolver.{auth_types_for_event}
use kerux.State.Resolver.Resolve.{resolve_v2, cached, same_set}
use kerux.Util.NewEvent.{calc_auth_events, build_pdu}
use kerux.Util.AddEvent.{Server, add_event, add_checked}
use kerux.ClientApi.{Context}
use kerux.ClientApi.RoomEvents.{get_event, send_event}
use kerux.ClientApi.Access.{SignedIn, IsJoined}
use kerux.ClientApi.Sync.{JoinedRoom, Progress, sync_joined, from_of, joined_of}
use kerux.ClientApi.ReadBack.{get_event-send_event, sync_joined-send_event}
use kerux.Fixtures.{runs, context, alice, server, room_x, the_room, serde, hashing, db}

sending_runs : Unit {0}
unfolding runs trim_start localpart new to_client_format matches json_matches is_timeline
    fields_match try_auth get_range filter_matches scan query_pdus_start query_pdus typing_now
    get_all_ephemeral Reader.query_events Reader.get_membership Reader.get_full_state
    Reader.get_room_member_counts Content.new did_pass_auth finalize add_pdus add_pdu
    get_prev_events strike strike_all max_depth insert_event auth_types_for_event resolve_v2 cached
    same_set calc_auth_events build_pdu add_event add_checked set_insert record_txn set_typing
    change_room get_event send_event sync_joined
sending_runs = tt

-- No matter what the counts of members ask for.
abbrev cx : Context String
cx = record context { serde = record serde { as_object = λ json. some [] } }

abbrev after_hello : Server String
after_hello = (send_event cx (pos 1) 10 7 room_x "m.room.message" "txn" "hello" server).1

sent : (send_event cx (pos 1) 10 7 room_x "m.room.message" "txn" "hello" server).0 ≡ ok "$x"
unfolding sending_runs
sent = refl

unused : get_pdu cx.serde hashing room_x "$x" db ≡ ok none
unfolding sending_runs
unused = refl

alice_signed : SignedIn cx 7 alice after_hello
unfolding sending_runs
alice_signed = ("alice", refl, refl)

alice-IsJoined : IsJoined cx alice room_x after_hello
unfolding sending_runs
alice-IsJoined = refl

get_event-send_event_example :
    (author : MatrixId) × (e : Event String) × SignedIn cx 7 author server
    × (get_event cx 7 room_x "$x" after_hello ≡ (ok e, after_hello))
    × (Content.new cx.serde "m.room.message" "hello" ≡ ok e.event_content)
    × (e.sender ≡ author)
    × (e.state_key ≡ none)
get_event-send_event_example =
    get_event-send_event cx (pos 1) 10 7 7 alice room_x "m.room.message" "txn" "$x" "hello" server
      sent unused alice_signed alice-IsJoined

abbrev typing_json : Typing → String
typing_json t = "typing"

-- The batch has seen the room's three events.
abbrev seen_three : Progress String
seen_three = record {
  batch = record { rooms = (room_x, 3) ∷ []; invites = [] };
  rooms = none;
  something_happened = false;
}

abbrev value_or : {A : Type 0} → A → Outcome A → A
value_or a (ok b) = b
value_or a _ = a

abbrev shown : Progress String
shown = value_or seen_three (sync_joined cx typing_json 11 after_hello.db false room_x seen_three)

answered : sync_joined cx typing_json 11 after_hello.db false room_x seen_three ≡ ok shown
unfolding sending_runs
answered = refl

sync_joined-send_event_example :
    (author : MatrixId) × (e : Event String) × (j : JoinedRoom String) × SignedIn cx 7 author server
    × (lookup room_x (joined_of shown.rooms) ≡ some j)
    × (j.timeline.events ≡ e ∷ [])
    × (Content.new cx.serde "m.room.message" "hello" ≡ ok e.event_content)
    × (e.sender ≡ author)
    × (from_of room_x shown.batch ≡ length the_room.events + 1)
unfolding sending_runs
sync_joined-send_event_example =
    sync_joined-send_event cx typing_json (pos 1) 10 11 7 room_x "m.room.message" "txn" "$x" "hello"
      server the_room false seen_three shown sent refl refl answered
