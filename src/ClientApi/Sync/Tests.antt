-- ===== src/ClientApi/Sync/Tests.antt =====
-- client_api/room_events.rs: `sync` on a small room, with no matter what the counts ask for.
use kerux.Prelude.{String, ◌≡◌, refl, true, false, none, some, [], ◌∷◌}
use kerux.Prelude.Equality.{string_eq}
use kerux.Prelude.Maps.{lookup, set_remove}
use kerux.Errors.{ok}
use kerux.Mxid.{MatrixId, new}
use kerux.Mxid.Text.{trim_start}
use kerux.Events.Pdu.{to_client_format}
use kerux.Storage.Query.{Batch, fields_match, matches, json_matches, is_timeline}
use kerux.Storage.Mem.Accounts.{try_auth, get_batch, set_batch}
use kerux.Storage.Mem.Rooms.{
  get_rooms, get_range, filter_matches, scan, query_pdus_start, query_pdus,
}
use kerux.Storage.Mem.Ephemeral.{Typing, typing_now, get_all_ephemeral}
use kerux.Storage.Reader
use kerux.Util.AddEvent.{Server}
use kerux.ClientApi.{Context}
use kerux.ClientApi.Access.{SignedIn, IsJoined}
use kerux.ClientApi.Sync.{SyncRequest, SyncResponse, JoinedRoom, Progress, sync_joined}
use kerux.ClientApi.Sync.{from_of, joined_of}
use kerux.ClientApi.Sync.Waiting.{Wake, sync}
use kerux.ClientApi.Sync.{StrippedState, strip}
use kerux.ClientApi.Sync.Access.{sync-IsJoined, sync-IsInvited, IsInvited}
use kerux.Prelude.{List}
use kerux.Events.Room.{Membership}
use kerux.Events.Pdu.{VersionedPdu, event_content}
use kerux.Fixtures.{make, membership, alice, bob}
use kerux.ClientApi.Sync.Delivery.{sync_joined-Delivers, shown_as}
use kerux.Fixtures.{runs, context, serde, server, room_x, create_pdu, join_pdu, levels_pdu, db}
use kerux.Fixtures.{the_room, passed}

syncing_runs : Unit {0}
unfolding runs trim_start new to_client_format matches json_matches is_timeline try_auth get_rooms
    get_batch set_batch fields_match typing_now get_range filter_matches scan query_pdus_start
    query_pdus get_all_ephemeral set_remove Reader.query_events Reader.get_membership
    Reader.get_full_state Reader.get_room_member_counts sync
syncing_runs = tt

abbrev cx : Context String
cx = record context { serde = record serde { as_object = λ json. some [] } }

abbrev typing_json : Typing → String
typing_json t = "typing"

abbrev first_request : SyncRequest
first_request = record { since = none; full_state = false }

abbrev timer : Wake String
timer = record { first = 1; later = db }

abbrev room_now : JoinedRoom String
room_now = record {
  summary = record { heroes = none; joined_member_count = 1; invited_member_count = 1 };
  state = [];
  timeline = record {
    events =
        to_client_format create_pdu ∷ to_client_format join_pdu ∷ to_client_format levels_pdu ∷ [];
    limited = false;
    prev_batch = "empty";
  };
  ephemeral = record { content = "typing"; ty = "m.typing" } ∷ [];
}

abbrev answer : SyncResponse String
answer = record {
  next_batch = "b1";
  rooms = some (record { join = (room_x, room_now) ∷ []; invite = [] });
}

answered : (sync cx typing_json 5 6 timer "b1" 7 first_request server).0 ≡ ok answer
unfolding syncing_runs
answered = refl

sync-IsJoined_example :
    (user : MatrixId) × SignedIn cx 7 user server × IsJoined cx user room_x server
unfolding syncing_runs
sync-IsJoined_example =
    sync-IsJoined cx typing_json 5 6 timer "b1" 7 first_request server answer room_x room_now
      answered refl

-- Another room, that the user is invited to.
abbrev invite_pdu : VersionedPdu String
invite_pdu = make "i" bob (membership Membership.invite) (some "@alice:x") ("$c" ∷ []) ("$c" ∷ [])

abbrev invited : Server String
invited = record server {
  db = record db {
    rooms = (room_x, record the_room { events = passed create_pdu ∷ passed invite_pdu ∷ [] }) ∷ [];
  };
}

abbrev room_stripped : List (StrippedState String)
room_stripped =
    record { content = event_content create_pdu; state_key = ""; sender = alice }
    ∷ record { content = event_content invite_pdu; state_key = "@alice:x"; sender = bob }
    ∷ []

abbrev invitation : SyncResponse String
invitation = record {
  next_batch = "b1";
  rooms = some (record { join = []; invite = (room_x, room_stripped) ∷ [] });
}

invitation_shown : (sync cx typing_json 5 6 timer "b1" 7 first_request invited).0 ≡ ok invitation
unfolding syncing_runs strip
invitation_shown = refl

sync-IsInvited_example :
    (user : MatrixId) × SignedIn cx 7 user invited × IsInvited cx typing_json user room_x invited
unfolding syncing_runs
sync-IsInvited_example =
    sync-IsInvited cx typing_json 5 6 timer "b1" 7 first_request invited invitation room_x
      room_stripped invitation_shown refl

abbrev half : Batch
half = record { rooms = (room_x, 2) ∷ []; invites = [] }

-- The batch has seen the first two events of the room.
abbrev shown_two : Progress String
shown_two = record { batch = half; rooms = none; something_happened = false }

abbrev caught_up : Progress String
caught_up = record {
  batch = record { rooms = (room_x, 3) ∷ []; invites = [] };
  rooms = some (record {
    join =
        (
          room_x,
          record room_now {
            timeline = record {
              events = to_client_format levels_pdu ∷ [];
              limited = false;
              prev_batch = "empty";
            };
          },
        )
        ∷ [];
    invite = [];
  });
  something_happened = true;
}

catching_up : sync_joined cx typing_json 5 db false room_x shown_two ≡ ok caught_up
unfolding syncing_runs
catching_up = refl

sync_joined-Delivers_example :
    (j : JoinedRoom String) × (lookup room_x (joined_of caught_up.rooms) ≡ some j)
    × (j.timeline.events ≡ shown_as (passed levels_pdu ∷ []))
    × (from_of room_x caught_up.batch ≡ 3)
unfolding syncing_runs
sync_joined-Delivers_example =
    sync_joined-Delivers cx typing_json 5 db false room_x the_room
      (passed create_pdu ∷ passed join_pdu ∷ []) (passed levels_pdu ∷ []) shown_two caught_up refl
      refl refl refl catching_up

-- The next request waits, and the timer is first.
abbrev second_request : SyncRequest
second_request = record { since = some "b1"; full_state = false }

abbrev seen : Server String
seen = (sync cx typing_json 5 6 timer "b1" 7 first_request server).1

nothing_new :
    (sync cx typing_json 7 8 (record { first = 1; later = seen.db }) "b2" 7 second_request seen).0
    ≡ ok (record {
      next_batch = "b2";
      rooms = some (record {
        join =
            (
              room_x,
              record room_now {
                timeline = record { events = []; limited = false; prev_batch = "empty" };
              },
            )
            ∷ [];
        invite = [];
      });
    })
unfolding syncing_runs
nothing_new = refl
