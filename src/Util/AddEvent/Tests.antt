-- ===== src/Util/AddEvent/Tests.antt =====
-- util/storage.rs: a run of `add_event`, and its theorems at a concrete room.
use kerux.Prelude.{String, ◌≡◌, refl, none, some, List, [], ◌∷◌}
use kerux.Prelude.Equality.{pair_eq, string_eq}
use kerux.Prelude.Lists.{contains, any}
use kerux.Prelude.Maps.{HashSet, set_insert}
use kerux.Prelude.Ints.{pos}
use kerux.Errors.{ok}
use kerux.Events.Content.{name}
use kerux.Events.Pdu.{did_pass_auth, finalize}
use kerux.Storage.Mem.Rooms.{add_pdus, add_pdu, get_prev_events, strike, strike_all, max_depth}
use kerux.State.{insert_event}
use kerux.State.Resolver.{auth_types_for_event}
use kerux.State.Resolver.Resolve.{resolve_v2, cached, same_set}
use kerux.Util.NewEvent.{NewEvent, calc_auth_events, build_pdu}
use kerux.Util.AddEvent.{add_event, add_checked}
use kerux.Util.AddEvent.AuthEvents.{contains-calc_auth_events, has_event}
use kerux.Util.AddEvent.Stored.{add_event-Added, Added}
use kerux.Fixtures.{
  runs, any_server, serde, hashing, room_x, room_state, alice, name_pdu, server, db,
}

adding_runs : Unit {0}
unfolding runs did_pass_auth finalize add_pdus add_pdu get_prev_events strike strike_all max_depth
    insert_event auth_types_for_event resolve_v2 cached same_set calc_auth_events build_pdu
    add_event add_checked set_insert
adding_runs = tt

abbrev new_name : NewEvent String
new_name = record {
  event_content = name (record { name = some "one" });
  sender = alice;
  state_key = some "";
  redacts = none;
  unsigned = none;
}

abbrev ids : List String
ids = "$c" ∷ "$p" ∷ "$j" ∷ []

abbrev keys : HashSet (String × String)
keys = ("m.room.power_levels", "") ∷ ("m.room.member", "@alice:x") ∷ ("m.room.create", "") ∷ []

contains-calc_auth_events_example : contains ids "$p" ≡ any (has_event room_state "$p") keys
unfolding adding_runs
contains-calc_auth_events_example =
    contains-calc_auth_events new_name name_pdu room_state ids keys "$p" refl refl refl refl refl
      refl

added : (add_event serde hashing any_server 9 (pos 1) room_x new_name server).0 ≡ ok "$x"
unfolding adding_runs
added = refl

add_event-Added_example :
    Added serde hashing any_server 9 room_x new_name "$x" db
      (add_event serde hashing any_server 9 (pos 1) room_x new_name server).1.db
add_event-Added_example =
    add_event-Added serde hashing any_server 9 (pos 1) room_x new_name server "$x" added
