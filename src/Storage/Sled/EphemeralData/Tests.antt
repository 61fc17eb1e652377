-- ===== src/Storage/Sled/EphemeralData/Tests.antt =====
-- storage/sled.rs: the theorem on ephemeral data at a small room, and where the backends differ.
use mathlib.Core.Option.{some-injective}
use kerux.Prelude.{String, ◌≡◌, refl, ap, sym, ◌∙◌, inl, inr, true, none, some, List, [], ◌∷◌}
use kerux.Prelude.Tests.{if◌then◌else◌, Bool-cases}
use kerux.Prelude.Equality.{◌==◌, string_eq}
use kerux.Prelude.Maps.{lookup}
use kerux.Errors.{ok}
use kerux.Storage.Mem.Ephemeral as Memory
use kerux.Storage.Mem.Ephemeral.{Typing, typing_now, change_room}
use kerux.Storage.Sled.{new_storage}
use kerux.Storage.Sled.EphemeralData as Database
use kerux.Storage.Sled.EphemeralData.{entry_of}
use kerux.Storage.Sled.EphemeralData.Notices.{
  Notice, get_all_ephemeral, get_ephemeral, set_ephemeral, set_typing, notice_memory,
  notices_memory, notices_sled,
}
use kerux.Storage.Sled.EphemeralData.Agreement.{SameRooms, of_room, notices_sled-notices_memory}
use kerux.Storage.Sled.Fixture.{stand_in}
use kerux.Fixtures.{runs, db, room_x, the_room, alice}

-- A notification is its first user's identifier.
abbrev to_value : Typing → String
to_value typing = elim typing.user_ids [ [] ↦ "nobody" | u ∷ us ↦ u.inner ]

abbrev notices : List (Notice String)
notices =
    set_typing 5 room_x alice true 10
    ∷ set_ephemeral room_x "m.receipt" (some "r")
    ∷ get_all_ephemeral 7 room_x
    ∷ get_ephemeral 7 room_x "m.receipt"
    ∷ []

db-SameRooms : SameRooms stand_in to_value (new_storage stand_in) db
unfolding lookup
db-SameRooms id room e = elim (Bool-cases (id == room_x)) [
  | inl same ↦
      let found : some the_room ≡ some room =
        sym (ap (λ b. if b then some the_room else lookup id []) same) ∙ e in
      ap (of_room stand_in to_value) (some-injective the_room room found)
  | inr differ ↦
      let missing : none ≡ some room =
        sym (ap (λ b. if b then some the_room else lookup id []) differ) ∙ e in
      cc
]

notices_sled-notices_memory_example :
    notices_sled stand_in to_value notices (new_storage stand_in)
    ≡ notices_memory to_value notices db
unfolding runs notice_memory Memory.set_typing Memory.set_ephemeral change_room
    Memory.get_all_ephemeral
notices_sled-notices_memory_example =
    notices_sled-notices_memory stand_in to_value notices (new_storage stand_in) db
      (refl, (refl, (refl, ((refl, refl), tt)))) db-SameRooms

-- Nobody types: the memory gives an empty notification, the database none.
nobody_types :
    (Memory.get_ephemeral to_value 7 room_x "m.typing" db ≡ ok (some "nobody"))
    × ((Database.get_ephemeral stand_in to_value 7 room_x "m.typing" (new_storage stand_in)).0
        ≡ ok none)
unfolding runs Memory.get_ephemeral Database.get_ephemeral typing_now
nobody_types = (refl, refl)
