-- ===== src/Storage/Mem/Rooms/Tests.antt =====
-- storage/mem.rs: the theorems on events and queries at a concrete room.
use kerux.Prelude.{String, ◌≡◌, List, map}
use kerux.Prelude.Equality.{string_eq}
use kerux.Prelude.Lists.{keep}
use kerux.Errors.{ok, ◌>>=◌}
use kerux.Storage.Mem.{new_storage}
use kerux.Storage.Mem.Rooms.{add_pdus, get_prev_events, find_room, id_of, max_depth}
use kerux.Storage.Mem.Rooms.Append.{RoomsOk, add_pdus-RoomsOk, new_storage-RoomsOk}
use kerux.Storage.Mem.Rooms.Heads.{is_head, get_prev_events-heads, IsLargest}
use kerux.Events.Pdu.{StoredPdu}
use kerux.Fixtures.{serde, hashing, db, events, room_x}

add_pdus-RoomsOk_example : RoomsOk (add_pdus events new_storage).1
add_pdus-RoomsOk_example = add_pdus-RoomsOk events new_storage new_storage-RoomsOk

get_prev_events-heads_example :
    (get_prev_events serde hashing room_x db ≡ (do
      room ← find_room room_x db
      let heads = keep (is_head serde hashing room.events) room.events
      ok (map (id_of serde hashing) heads, max_depth heads)))
    × ((heads : List (StoredPdu String)) → IsLargest serde hashing (max_depth heads) heads)
get_prev_events-heads_example = get_prev_events-heads serde hashing room_x db
