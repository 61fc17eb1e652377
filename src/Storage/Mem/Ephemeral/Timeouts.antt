-- ===== src/Storage/Mem/Ephemeral/Timeouts.antt =====
-- storage/mem.rs: who is typing, and what a change of ephemeral data leaves alone.
use kerux.Prelude.{ℕ, ◌+◌, String, ◌≡◌, refl, Bool, true, false, ◌&&◌, Option, none, some}
use kerux.Prelude.{[], ◌∷◌, arith, inl, inr}
use kerux.Prelude.Tests.{ltb, if◌then◌else◌, is_some, Option-cases}
use kerux.Prelude.Equality.{◌==◌, string_eq}
use kerux.Prelude.Lists.{contains}
use kerux.Prelude.Maps.{HashMap, lookup, insert, remove, NodupKeys, lookup-insert, lookup-remove}
use kerux.Prelude.Maps.{insert-NodupKeys, remove-NodupKeys}
use kerux.Errors.{ok, err, room_not_found}
use kerux.Mxid.{MatrixId, mxid_eq}
use kerux.Storage.Mem.{Instant, Room, MemStorage}
use kerux.Storage.Mem.Ephemeral.{Typing, typing_now, change_room, set_typing, put_typing}

-- A user's timeout, if it is still to come.
abbrev still_typing : Instant → Option Instant → Bool
still_typing now none = false
still_typing now (some timeout) = ltb now timeout

contains-typing_now_missing :
    (now : Instant) (u : MatrixId) (typing : HashMap MatrixId Instant)
    → lookup u typing ≡ none
    → contains (typing_now now typing).user_ids u ≡ false
unfolding typing_now lookup
contains-typing_now_missing now u [] h = refl
contains-typing_now_missing now u ((v, t) ∷ typing) h =
    ground (arith, contains-typing_now_missing now u typing)

contains-typing_now :
    (now : Instant) (u : MatrixId) (typing : HashMap MatrixId Instant)
    → NodupKeys typing
    → contains (typing_now now typing).user_ids u ≡ still_typing now (lookup u typing)
unfolding typing_now lookup
contains-typing_now now u [] n = refl
contains-typing_now now u ((v, t) ∷ typing) (fresh, n) =
    ground
      (arith, contains-typing_now now u typing n, contains-typing_now_missing now v typing fresh)

module _ {J : Type 0} where
  -- The users that type in a room at a moment; nobody does where there is no room.
  pub typing_at : Instant → String → MemStorage J → Typing
  typing_at now id db = elim (lookup id db.rooms) [
    | none ↦ record { user_ids = [] }
    | some room ↦ typing_now now room.typing
  ]

  -- Each room's map of timeouts binds a user once.
  pub record TypingOk (db : MemStorage J) : Type 0 where
    pub at_room :
        (id : String) (room : Room J) → lookup id db.rooms ≡ some room → NodupKeys room.typing

  abbrev noticed : (Room J → Room J) → Room J → Room J
  noticed change room = record (change room) { notify_send = room.notify_send + 1 }

  put_typing-user :
      (start now : Instant) (user_id u : MatrixId) (is_typing : Bool) (timeout : ℕ) (room : Room J)
      → NodupKeys room.typing
      → contains
          (typing_now now (put_typing start user_id is_typing timeout room).typing).user_ids
          u
        ≡ (if u == user_id
            then is_typing && ltb now (start + timeout)
            else contains (typing_now now room.typing).user_ids u)
  put_typing-user start now user_id u true timeout room n = ground (
    arith,
    contains-typing_now now u room.typing n,
    contains-typing_now now u (insert user_id (start + timeout) room.typing)
        (insert-NodupKeys user_id (start + timeout) room.typing n),
    lookup-insert u user_id (start + timeout) room.typing,
  )
  put_typing-user start now user_id u false timeout room n = ground (
    arith,
    contains-typing_now now u room.typing n,
    contains-typing_now now u (remove user_id room.typing) (remove-NodupKeys user_id room.typing n),
    lookup-remove u user_id room.typing,
  )

  -- A user who starts typing in a room at a moment is typing until the timeout is over, one who
  -- stops is not, and what another user or another room shows does not change. In a room that does
  -- not exist it is an error that changes nothing.
  pub typing_at-set_typing :
      (start now : Instant) (id j : String) (user_id u : MatrixId) (is_typing : Bool) (timeout : ℕ)
      (db : MemStorage J)
      → TypingOk db
      → ((set_typing start id user_id is_typing timeout db).0
          ≡ (if is_some (lookup id db.rooms) then ok tt else err room_not_found))
        × (contains
              (typing_at now j (set_typing start id user_id is_typing timeout db).1).user_ids
              u
            ≡ (if is_some (lookup id db.rooms) && (j == id && u == user_id)
                then is_typing && ltb now (start + timeout)
                else contains (typing_at now j db).user_ids u))
        × ((set_typing start id user_id is_typing timeout db).1 ≡ (
            if is_some (lookup id db.rooms)
            then (set_typing start id user_id is_typing timeout db).1
            else db))
  unfolding set_typing change_room typing_at
  typing_at-set_typing start now id j user_id u is_typing timeout db v =
      elim (Option-cases (lookup id db.rooms)) [
        | inl missing ↦ ground arith
        | inr (room, e) ↦ ground (
          arith,
          lookup-insert j id (noticed (put_typing start user_id is_typing timeout) room) db.rooms,
          put_typing-user start now user_id u is_typing timeout room (v.at_room id room e),
        )
      ]
