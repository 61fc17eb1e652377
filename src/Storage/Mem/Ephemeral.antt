-- ===== src/Storage/Mem/Ephemeral.antt =====
-- storage/mem.rs: ephemeral data and typing notifications, which expire by the clock.
pub mod Timeouts
use kerux.Prelude.{ℕ, ◌+◌, String, Bool, true, false, Option, none, some, List, [], ◌∷◌}
use kerux.Prelude.Tests.{ltb, if◌then◌else◌}
use kerux.Prelude.Equality.{◌==◌, string_eq}
use kerux.Prelude.Maps.{HashMap, HashSet, lookup, insert, remove}
use kerux.Errors.{Outcome, ok, err, panic, room_not_found, ◌>>=◌}
use kerux.Exec.{Exec}
use kerux.Mxid.{MatrixId, mxid_eq}
use kerux.Storage.Mem.{Instant, Room, MemStorage}
use kerux.Storage.Mem.Rooms.{find_room}

-- `Typing` of events/ephemeral.rs
pub record Typing : Type 0 where
  pub user_ids : HashSet MatrixId

-- The users whose timeout is still to come.
unfoldable pub typing_now : Instant → HashMap MatrixId Instant → Typing
typing_now now [] = record { user_ids = [] }
typing_now now ((mxid, timeout) ∷ typing) =
    let rest = typing_now now typing in
    if ltb now timeout then record { user_ids = mxid ∷ rest.user_ids } else rest

-- `serde_json::to_value` of a `Typing` is the parameter `to_value`.
module _ {J : Type 0} (to_value : Typing → J) where
  unfoldable pub get_all_ephemeral : Instant → String → MemStorage J → Outcome (HashMap String J)
  get_all_ephemeral now id db = do
    room ← find_room id db
    ok (insert "m.typing" (to_value (typing_now now room.typing)) room.ephemeral)

  unfoldable pub get_ephemeral : Instant → String → String → MemStorage J → Outcome (Option J)
  get_ephemeral now id event_type db = do
    room ← find_room id db
    (if event_type == "m.typing"
        then ok (some (to_value (typing_now now room.typing)))
        else ok (lookup event_type room.ephemeral))

module _ {J : Type 0} where
  -- A change of one room, and a message on its channel.
  unfoldable pub change_room : String → (Room J → Room J) → Exec (MemStorage J) (Unit {0})
  change_room id change db = elim (lookup id db.rooms) [
    | none ↦ (err room_not_found, db)
    | some room ↦ (
      ok tt,
      record db {
        rooms = insert id (record (change room) { notify_send = room.notify_send + 1 }) db.rooms;
      },
    )
  ]

  abbrev pub put_ephemeral : String → Option J → Room J → Room J
  put_ephemeral event_type none room = record room { ephemeral = remove event_type room.ephemeral }
  put_ephemeral event_type (some c) room = record room {
    ephemeral = insert event_type c room.ephemeral;
  }

  -- The assertion panics before the lock is taken.
  unfoldable pub set_ephemeral : String → String → Option J → Exec (MemStorage J) (Unit {0})
  set_ephemeral id event_type content db =
      if event_type == "m.typing"
      then (panic, db)
      else change_room id (put_ephemeral event_type content) db

  abbrev pub put_typing : Instant → MatrixId → Bool → ℕ → Room J → Room J
  put_typing now user_id true timeout room = record room {
    typing = insert user_id (now + timeout) room.typing;
  }
  put_typing now user_id false timeout room = record room { typing = remove user_id room.typing }

  unfoldable pub set_typing :
      Instant → String → MatrixId → Bool → ℕ → Exec (MemStorage J) (Unit {0})
  set_typing now id user_id is_typing timeout =
      change_room id (put_typing now user_id is_typing timeout)
