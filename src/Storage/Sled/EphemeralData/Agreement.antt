-- ===== src/Storage/Sled/EphemeralData/Agreement.antt =====
-- storage/sled.rs and storage/mem.rs: ephemeral data of rooms, as clients of the two backends see
-- it. The database keeps it apart from its rooms, so only rooms that exist are compared.
use kerux.Prelude.{
  ℕ, ◌+◌, String, ◌≡◌, refl, sym, ap, ◌∙◌, Bool, true, false, Option, none, some, List, [], ◌∷◌,
  inl, inr,
}
use mathlib.Core.Path.{ap₂}
use mathlib.Core.Option.{some-injective}
use kerux.Prelude.Tests.{is_some, if◌then◌else◌, Bool-cases}
use kerux.Prelude.Equality.{◌==◌, ==-eq, string_eq}
use kerux.Prelude.Maps.{lookup, insert, lookup-insert}
use kerux.Errors.{Outcome, ok}
use kerux.Exec.{continue, pure}
use kerux.Mxid.{MatrixId}
use kerux.Storage.Mem.{Instant, MemStorage, Room}
use kerux.Storage.Mem.Rooms.{find_room}
use kerux.Storage.Mem.Ephemeral as Memory
use kerux.Storage.Mem.Ephemeral.{Typing, typing_now, change_room}
use kerux.Storage.Sled.{Ephemeral, Sled, SledStorage}
use kerux.Storage.Sled.EphemeralData as Database
use kerux.Storage.Sled.EphemeralData.{entry_of, put_entry}
use kerux.Storage.Sled.EphemeralData.Notices.{
  Notice, Reply, get_all_ephemeral, get_ephemeral, set_ephemeral, set_typing, all, one, done,
  notice_memory, notices_memory, notice_sled, notices_sled, IsKnown, AreKnown,
}

is_some-eq : {A : Type 0} (o : Option A) → is_some o ≡ true → (a : A) × (o ≡ some a)
is_some-eq none h = cc
is_some-eq (some a) h = (a, refl)

module _ {J : Type 0} where
  change_room-eq :
      (id : String) (change : Room J → Room J) (room : Room J) (db : MemStorage J)
      → lookup id db.rooms ≡ some room
      → change_room id change db ≡ (
        ok tt,
        record db {
          rooms = insert id (record (change room) { notify_send = room.notify_send + 1 }) db.rooms;
        },
      )
  unfolding change_room
  change_room-eq id change room db e = rw (e, change_room) refl

  find_room-eq :
      (id : String) (room : Room J) (db : MemStorage J)
      → lookup id db.rooms ≡ some room
      → find_room id db ≡ ok room
  find_room-eq id room db e = rw (e, find_room) refl

module _ {J : Type 0} (D : Sled J) (to_value : Typing → J) where
  -- The fields that both keep for a room.
  abbrev pub of_room : Room J → Ephemeral J
  of_room room = record { ephemeral = room.ephemeral; typing = room.typing }

  abbrev pub SameRooms : SledStorage D → MemStorage J → Type 0
  SameRooms s db =
      (id : String) (room : Room J)
      → lookup id db.rooms ≡ some room
      → entry_of id s.ephemeral ≡ of_room room

  -- A call that reads makes an entry that was there, or an empty one.
  put_same :
      (id : String) (room : Room J) (s : SledStorage D) (db : MemStorage J)
      → lookup id db.rooms ≡ some room
      → SameRooms s db
      → SameRooms (put_entry D to_value id (entry_of id s.ephemeral) s) db
  put_same id room s db e h j other f = elim (Bool-cases (j == id)) [
    | inl same ↦
        rw (lookup-insert j id (entry_of id s.ephemeral) s.ephemeral, same, sym (==-eq j id same))
          (h j other f)
    | inr differ ↦
        rw (lookup-insert j id (entry_of id s.ephemeral) s.ephemeral, differ) (h j other f)
  ]

  put_changed :
      (id : String) (change : Room J → Room J) (room : Room J) (s : SledStorage D)
      (db : MemStorage J)
      → lookup id db.rooms ≡ some room
      → SameRooms s db
      → SameRooms (put_entry D to_value id (of_room (change room)) s) (record db {
        rooms = insert id (record (change room) { notify_send = room.notify_send + 1 }) db.rooms;
      })
  put_changed id change room s db e h j other f =
      let next : Room J = record (change room) { notify_send = room.notify_send + 1 } in
      let seen = sym (lookup-insert j id next db.rooms) ∙ f in
      elim (Bool-cases (j == id)) [
        | inl same ↦
            let found : some next ≡ some other =
              sym (ap (λ b. if b then some next else lookup j db.rooms) same) ∙ seen in
            rw (lookup-insert j id (of_room (change room)) s.ephemeral, same)
              (ap of_room (some-injective next other found))
        | inr differ ↦
            let found : lookup j db.rooms ≡ some other =
              sym (ap (λ b. if b then some next else lookup j db.rooms) differ) ∙ seen in
            rw (lookup-insert j id (of_room (change room)) s.ephemeral, differ) (h j other found)
      ]

  abbrev Same : Outcome (Reply J) × SledStorage D → Outcome (Reply J) × MemStorage J → Type 0
  Same x y = (x.0 ≡ y.0) × SameRooms x.1 y.1

  finish_same :
      {A : Type 0} (f : A → Reply J) (a : A) (x : Outcome A × SledStorage D)
      (y : Outcome A × MemStorage J)
      → x.0 ≡ ok a
      → y.0 ≡ ok a
      → SameRooms x.1 y.1
      → Same (continue x.0 (λ b. pure (f b)) x.1) (continue y.0 (λ b. pure (f b)) y.1)
  finish_same f a x y ex ey h = rw (ex, ey) (refl, h)

  changed_same :
      (id : String) (change : Room J → Room J) (next : Ephemeral J) (room : Room J)
      (s : SledStorage D) (db : MemStorage J)
      → lookup id db.rooms ≡ some room
      → next ≡ of_room (change room)
      → SameRooms s db
      → Same
          (continue (ok tt) (λ b. pure (done b)) (put_entry D to_value id next s))
          (continue (change_room id change db).0 (λ b. pure (done b)) (change_room id change db).1)
  changed_same id change next room s db e same h =
      rw (change_room-eq id change room db e, same) (refl, put_changed id change room s db e h)

  put_typing-of_room :
      (now : Instant) (user_id : MatrixId) (is_typing : Bool) (timeout : ℕ) (room : Room J)
      → Database.put_typing D to_value now user_id is_typing timeout (of_room room)
        ≡ of_room (Memory.put_typing now user_id is_typing timeout room)
  put_typing-of_room now user_id true timeout room = refl
  put_typing-of_room now user_id false timeout room = refl

  put_ephemeral-of_room :
      (event_type : String) (content : Option J) (room : Room J)
      → Database.put_ephemeral D to_value event_type content (of_room room)
        ≡ of_room (Memory.put_ephemeral event_type content room)
  put_ephemeral-of_room event_type none room = refl
  put_ephemeral-of_room event_type (some c) room = refl

  notice_sled-Same :
      (n : Notice J) (s : SledStorage D) (db : MemStorage J)
      → IsKnown to_value n db
      → SameRooms s db
      → Same (notice_sled D to_value n s) (notice_memory to_value n db)
  unfolding notice_sled notice_memory Database.get_all_ephemeral Memory.get_all_ephemeral
      Database.get_ephemeral Memory.get_ephemeral Database.set_ephemeral Memory.set_ephemeral
      Database.set_typing Memory.set_typing
  notice_sled-Same (get_all_ephemeral now id) s db k h =
      let (room, e) = is_some-eq (lookup id db.rooms) k in
      finish_same all (insert "m.typing" (to_value (typing_now now room.typing)) room.ephemeral)
        (Database.get_all_ephemeral D to_value now id s)
        (Memory.get_all_ephemeral to_value now id db, db) (rw (h id room e) refl)
        (rw (find_room-eq id room db e) refl) (put_same id room s db e h)
  notice_sled-Same (get_ephemeral now id event_type) s db (k, other) h =
      let (room, e) = is_some-eq (lookup id db.rooms) k in
      finish_same one (lookup event_type room.ephemeral)
        (Database.get_ephemeral D to_value now id event_type s)
        (Memory.get_ephemeral to_value now id event_type db, db) (rw (other, h id room e) refl)
        (rw (find_room-eq id room db e, other) refl) (put_same id room s db e h)
  notice_sled-Same (set_ephemeral id event_type content) s db k h =
      let (room, e) = is_some-eq (lookup id db.rooms) k in
      elim (Bool-cases (event_type == "m.typing")) [
        | inl typing ↦ rw typing (refl, h)
        | inr other ↦ rw other (
            changed_same id (Memory.put_ephemeral event_type content) _ room s db e
              (rw (h id room e) (put_ephemeral-of_room event_type content room)) h)
      ]
  notice_sled-Same (set_typing now id user_id is_typing timeout) s db k h =
      let (room, e) = is_some-eq (lookup id db.rooms) k in
      changed_same id (Memory.put_typing now user_id is_typing timeout) _ room s db e
        (rw (h id room e) (put_typing-of_room now user_id is_typing timeout room)) h

  -- If both hold the same of the rooms that exist, they give the same answers to any sequence of
  -- calls that read and write ephemeral data and typing of such rooms, as long as `m.typing` is
  -- read only together with the rest.
  pub notices_sled-notices_memory :
      (ns : List (Notice J)) (s : SledStorage D) (db : MemStorage J)
      → AreKnown to_value ns db
      → SameRooms s db
      → notices_sled D to_value ns s ≡ notices_memory to_value ns db
  unfolding notices_sled notices_memory
  notices_sled-notices_memory [] s db k h = refl
  notices_sled-notices_memory (n ∷ ns) s db (k, ks) h =
      let (same, after) = notice_sled-Same n s db k h in
      ap₂ ◌∷◌ same (
        notices_sled-notices_memory ns (notice_sled D to_value n s).1
          (notice_memory to_value n db).1 ks after)
