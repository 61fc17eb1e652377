-- ===== src/Storage/Sled/EphemeralData/Notices.antt =====
-- storage/sled.rs and storage/mem.rs: the calls about ephemeral data that clients make, and their
-- answers from each backend.
use kerux.Prelude.{ℕ, String, ◌≡◌, Bool, true, false, Option, List, [], ◌∷◌}
use kerux.Prelude.Tests.{is_some}
use kerux.Prelude.Equality.{◌==◌, string_eq}
use kerux.Prelude.Maps.{HashMap, lookup}
use kerux.Errors.{Outcome}
use kerux.Exec.{Exec, pure, reads, ◌>>=◌}
use kerux.Mxid.{MatrixId}
use kerux.Storage.Mem.{Instant, MemStorage}
use kerux.Storage.Mem.Ephemeral as Memory
use kerux.Storage.Mem.Ephemeral.{Typing, typing_now, change_room}
use kerux.Storage.Sled.{Sled, SledStorage}
use kerux.Storage.Sled.EphemeralData as Database
use kerux.Storage.Sled.EphemeralData.{entry_of, put_entry}

-- A method of `Storage` for ephemeral data, with its arguments and the time of its call.
pub data Notice (J : Type 0) : Type 0 where
  get_all_ephemeral : Instant → String → Notice J
  get_ephemeral : Instant → String → String → Notice J
  set_ephemeral : String → String → Option J → Notice J
  set_typing : Instant → String → MatrixId → Bool → ℕ → Notice J

pub data Reply (J : Type 0) : Type 0 where
  all : HashMap String J → Reply J
  one : Option J → Reply J
  done : Unit {0} → Reply J

abbrev reply : {S A B : Type 0} → (A → B) → Exec S A → Exec S B
reply f m = m >>= λ a. pure (f a)

module _ {J : Type 0} (to_value : Typing → J) where
  unfoldable pub notice_memory : Notice J → Exec (MemStorage J) (Reply J)
  notice_memory (get_all_ephemeral now id) =
      reply all (reads (Memory.get_all_ephemeral to_value now id))
  notice_memory (get_ephemeral now id event_type) =
      reply one (reads (Memory.get_ephemeral to_value now id event_type))
  notice_memory (set_ephemeral id event_type content) =
      reply done (Memory.set_ephemeral id event_type content)
  notice_memory (set_typing now id user_id is_typing timeout) =
      reply done (Memory.set_typing now id user_id is_typing timeout)

  unfoldable pub notices_memory : List (Notice J) → MemStorage J → List (Outcome (Reply J))
  notices_memory [] db = []
  notices_memory (n ∷ ns) db = (notice_memory n db).0 ∷ notices_memory ns (notice_memory n db).1

  -- The room of a call exists, and the notification `m.typing` is not asked for alone.
  abbrev pub IsKnown : Notice J → MemStorage J → Type 0
  IsKnown (get_all_ephemeral now id) db = is_some (lookup id db.rooms) ≡ true
  IsKnown (get_ephemeral now id event_type) db =
      (is_some (lookup id db.rooms) ≡ true) × ((event_type == "m.typing") ≡ false)
  IsKnown (set_ephemeral id event_type content) db = is_some (lookup id db.rooms) ≡ true
  IsKnown (set_typing now id user_id is_typing timeout) db = is_some (lookup id db.rooms) ≡ true

  abbrev pub AreKnown : List (Notice J) → MemStorage J → Type 0
  AreKnown [] db = Unit {0}
  AreKnown (n ∷ ns) db = IsKnown n db × AreKnown ns (notice_memory n db).1

module _ {J : Type 0} (D : Sled J) (to_value : Typing → J) where
  unfoldable pub notice_sled : Notice J → Exec (SledStorage D) (Reply J)
  notice_sled (get_all_ephemeral now id) = reply all (Database.get_all_ephemeral D to_value now id)
  notice_sled (get_ephemeral now id event_type) =
      reply one (Database.get_ephemeral D to_value now id event_type)
  notice_sled (set_ephemeral id event_type content) =
      reply done (Database.set_ephemeral D to_value id event_type content)
  notice_sled (set_typing now id user_id is_typing timeout) =
      reply done (Database.set_typing D to_value now id user_id is_typing timeout)

  unfoldable pub notices_sled : List (Notice J) → SledStorage D → List (Outcome (Reply J))
  notices_sled [] s = []
  notices_sled (n ∷ ns) s = (notice_sled n s).0 ∷ notices_sled ns (notice_sled n s).1
