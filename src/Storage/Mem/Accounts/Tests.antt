-- ===== src/Storage/Mem/Accounts/Tests.antt =====
-- storage/mem.rs: the theorems on accounts and on typing at a concrete server.
use kerux.Prelude.{◌+◌, String, ◌≡◌, refl, true, ◌&&◌, some}
use kerux.Prelude.{[], ◌∷◌, arith}
use kerux.Prelude.Tests.{if◌then◌else◌, is_some, ltb}
use kerux.Prelude.Equality.{◌==◌, string_eq, nat_eq, option_eq}
use kerux.Prelude.Lists.{contains}
use kerux.Prelude.Maps.{lookup}
use kerux.Errors.{ok, err, room_not_found}
use kerux.Mxid.{mxid_eq}
use kerux.Storage.Query.{Batch}
use kerux.Storage.Mem.Accounts.{get_batch, set_batch, get_user_account_data}
use kerux.Storage.Mem.Rooms.{get_rooms}
use kerux.Storage.Mem.Ephemeral.{set_typing, get_ephemeral, get_all_ephemeral}
use kerux.Storage.Mem.Ephemeral.Timeouts.{typing_at, TypingOk, typing_at-set_typing}
use kerux.Fixtures.{runs, db, room_x, alice}

abbrev alice_name : String
alice_name = "alice"

abbrev bob_name : String
bob_name = "bob"

typing_ok : TypingOk db
unfolding lookup
typing_ok = record { at_room = λ id room h. ground arith }

typing_at-set_typing_example :
    ((set_typing 100 room_x alice true 30 db).0
      ≡ (if is_some (lookup room_x db.rooms) then ok tt else err room_not_found))
    × (contains (typing_at 120 room_x (set_typing 100 room_x alice true 30 db).1).user_ids alice ≡ (
        if is_some (lookup room_x db.rooms) && (room_x == room_x && alice == alice)
        then true && ltb 120 (100 + 30)
        else contains (typing_at 120 room_x db).user_ids alice))
    × ((set_typing 100 room_x alice true 30 db).1 ≡ (
        if is_some (lookup room_x db.rooms)
        then (set_typing 100 room_x alice true 30 db).1
        else db))
typing_at-set_typing_example =
    typing_at-set_typing 100 120 room_x room_x alice alice true 30 db typing_ok

abbrev batch : Batch
batch = record { rooms = (room_x, 3) ∷ []; invites = [] }

other_data :
    (get_batch "b" (set_batch "b" batch db).1 ≡ ok (some batch))
    × (get_user_account_data alice_name db ≡ ok [])
    × (get_rooms db ≡ ok (room_x ∷ []))
    × (get_ephemeral (λ t. "typing") 120 room_x "m.typing" db ≡ ok (some "typing"))
    × (get_all_ephemeral (λ t. "typing") 120 room_x db ≡ ok (("m.typing", "typing") ∷ []))
unfolding runs get_batch set_batch get_user_account_data get_rooms get_ephemeral get_all_ephemeral
other_data = (refl, refl, refl, refl, refl)
