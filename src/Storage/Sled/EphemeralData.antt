-- ===== src/Storage/Sled/EphemeralData.antt =====
-- storage/sled.rs: ephemeral data and typing notifications, which are in memory. Every method makes
-- an entry for the room that it is asked for.
pub mod Notices
pub mod Agreement
mod Tests
use kerux.Prelude.{ℕ, ◌+◌, String, Bool, true, false, Option, none, some, List, [], ◌∷◌}
use kerux.Prelude.Tests.{if◌then◌else◌}
use kerux.Prelude.Equality.{◌==◌, string_eq}
use kerux.Prelude.Lists.{is_empty}
use kerux.Prelude.Maps.{HashMap, lookup, insert, remove}
use kerux.Errors.{Outcome, ok, panic}
use kerux.Exec.{Exec}
use kerux.Mxid.{MatrixId, mxid_eq}
use kerux.Events.Room.{unwrap_or}
use kerux.Storage.Mem.{Instant}
use kerux.Storage.Mem.Ephemeral.{Typing, typing_now}
use kerux.Storage.Sled.{Ephemeral, Sled, SledStorage}

-- `entry(room_id).or_default()`
abbrev pub entry_of : {J : Type 0} → String → HashMap String (Ephemeral J) → Ephemeral J
entry_of id m = unwrap_or (lookup id m) (record { ephemeral = []; typing = [] })

module _ {J : Type 0} (D : Sled J) (to_value : Typing → J) where
  -- The entry that a method works on is in the map from then on.
  abbrev pub put_entry : String → Ephemeral J → SledStorage D → SledStorage D
  put_entry id e s = record s { ephemeral = insert id e s.ephemeral }

  unfoldable pub get_all_ephemeral : Instant → String → Exec (SledStorage D) (HashMap String J)
  get_all_ephemeral now id s =
      let e = entry_of id s.ephemeral in
      (ok (insert "m.typing" (to_value (typing_now now e.typing)) e.ephemeral), put_entry id e s)

  -- Nobody typing is no notification.
  abbrev pub typing_value : Typing → Option J
  typing_value typing = if is_empty typing.user_ids then none else some (to_value typing)

  unfoldable pub get_ephemeral : Instant → String → String → Exec (SledStorage D) (Option J)
  get_ephemeral now id event_type s =
      let e = entry_of id s.ephemeral in
      (
        ok (
            if event_type == "m.typing"
            then typing_value (typing_now now e.typing)
            else lookup event_type e.ephemeral),
        put_entry id e s,
      )

  abbrev pub put_ephemeral : String → Option J → Ephemeral J → Ephemeral J
  put_ephemeral event_type none e = record e { ephemeral = remove event_type e.ephemeral }
  put_ephemeral event_type (some c) e = record e { ephemeral = insert event_type c e.ephemeral }

  -- The assertion panics before the lock is taken.
  unfoldable pub set_ephemeral : String → String → Option J → Exec (SledStorage D) (Unit {0})
  set_ephemeral id event_type content s =
      if event_type == "m.typing"
      then (panic, s)
      else (ok tt, put_entry id (put_ephemeral event_type content (entry_of id s.ephemeral)) s)

  abbrev pub put_typing : Instant → MatrixId → Bool → ℕ → Ephemeral J → Ephemeral J
  put_typing now user_id true timeout e = record e {
    typing = insert user_id (now + timeout) e.typing;
  }
  put_typing now user_id false timeout e = record e { typing = remove user_id e.typing }

  unfoldable pub set_typing :
      Instant → String → MatrixId → Bool → ℕ → Exec (SledStorage D) (Unit {0})
  set_typing now id user_id is_typing timeout s =
      (ok tt, put_entry id (put_typing now user_id is_typing timeout (entry_of id s.ephemeral)) s)
