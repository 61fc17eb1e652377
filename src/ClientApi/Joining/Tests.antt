-- ===== src/ClientApi/Joining/Tests.antt =====
-- client_api/room.rs: a user joins a room that has nothing but its creator's create event.
use kerux.Prelude.{false, String, ◌≡◌, refl, some, [], ◌∷◌}
use kerux.Prelude.Equality.{string_eq}
use kerux.Prelude.Maps.{lookup, set_insert}
use kerux.Prelude.Ints.{pos}
use kerux.Errors.{ok}
use kerux.Mxid.{MatrixId, localpart, new}
use kerux.Mxid.Text.{trim_start}
use kerux.Events.Content
use kerux.Prelude.{map}
use kerux.Prelude.Tests.{map_option}
use kerux.Events.Pdu.{AuthStatus, StoredPdu, did_pass_auth, finalize, to_client_format}
use kerux.Storage.Query.{fields_match, matches, json_matches, is_timeline}
use kerux.Storage.Mem.Accounts.{try_auth, record_txn}
use kerux.Storage.Mem.Rooms.{
  add_pdu, add_pdus, filter_matches, get_prev_events, get_range, max_depth, query_pdus,
  query_pdus_start, scan, strike, strike_all,
}
use kerux.Storage.Mem.Ephemeral.{typing_now, get_all_ephemeral, set_typing, change_room}
use kerux.Storage.Reader
use kerux.State.{insert_event}
use kerux.State.Resolver.{auth_types_for_event}
use kerux.State.Resolver.Resolve.{resolve_v2, cached, same_set}
use kerux.Storage.Query.{UserProfile}
use kerux.Events.Room.{Membership}
use kerux.ClientApi.Room.{membership_event}
use kerux.Util.NewEvent.{calc_auth_events, build_pdu}
use kerux.Util.AddEvent.{Server, add_event, add_checked}
use kerux.ClientApi.RoomEvents.{get_event}
use kerux.ClientApi.Access.{SignedIn, IsJoined}
use kerux.ClientApi.Room.{join_by_id_or_alias}
use kerux.ClientApi.Joining.{join_by_id_or_alias-IsJoined}
use kerux.Util.AddEvent.Stored.{Added}
use kerux.Storage.Mem.{Room}
use kerux.Storage.Mem.Accounts
use kerux.Fixtures.{
  runs, context, create_pdu, passed, any_server, server, room_x, the_room, serde, hashing, db,
}

joining_runs : Unit {0}
unfolding runs trim_start localpart new to_client_format matches json_matches is_timeline
    fields_match try_auth get_range filter_matches scan query_pdus_start query_pdus typing_now
    get_all_ephemeral Accounts.get_profile Reader.query_events Reader.get_membership
    Reader.get_full_state Reader.get_room_member_counts Content.new did_pass_auth finalize add_pdus
    add_pdu get_prev_events strike strike_all max_depth insert_event auth_types_for_event resolve_v2
    cached same_set calc_auth_events build_pdu add_event add_checked set_insert record_txn
    set_typing change_room get_event join_by_id_or_alias
joining_runs = tt

-- Bob is not the creator.
abbrev created : Server String
created = record server {
  db = record db {
    rooms = (room_x, record the_room { events = passed create_pdu ∷ [] }) ∷ [];
    access_tokens = (9, "bob") ∷ [];
  };
}

abbrev after_join : Server String
after_join = (join_by_id_or_alias context (pos 1) 9 room_x created).1

answered : (join_by_id_or_alias context (pos 1) 9 room_x created).0 ≡ ok room_x
unfolding joining_runs
answered = refl

join_by_id_or_alias-IsJoined_example :
    (user : MatrixId) × (id : String) × (profile : UserProfile) × SignedIn context 9 user created
    × Added serde hashing any_server 9 room_x
        (membership_event user user.inner Membership.join profile (some false))
        id
        created.db
        after_join.db
    × IsJoined context user room_x after_join
    × (room_x ≡ room_x)
join_by_id_or_alias-IsJoined_example =
    join_by_id_or_alias-IsJoined context (pos 1) 9 room_x room_x created answered

-- The check refused the event, and yet the room's first event is shown to Bob.
refused_and_shown :
    (map_option
        (λ (r : Room String). map (λ (e : StoredPdu String). e.auth_status) r.events)
        (lookup room_x after_join.db.rooms)
      ≡ some (AuthStatus.pass ∷ AuthStatus.fail ∷ []))
    × ((get_event context 9 room_x "$c" after_join).0 ≡ ok (to_client_format create_pdu))
unfolding joining_runs
refused_and_shown = (refl, refl)
