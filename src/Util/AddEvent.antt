-- ===== src/Util/AddEvent.antt =====
-- util/storage.rs: `add_event`, the way of every event that a client sends: the heads of its room,
-- the state after them, its auth events, the auth check, and the storage.
pub mod Stored
pub mod AuthEvents
mod Tests
use kerux.Prelude.{ℕ, String, Bool, true, false, Option, none, some, List, [], ◌∷◌}
use kerux.Prelude.Ints.{ℤ}
use kerux.Prelude.Tests.{if◌then◌else◌}
use kerux.Errors.{Outcome, ok, panic}
use kerux.Exec.{Exec, reads, pure, ◌>>=◌, ◌>>◌}
use kerux.Events.Content.{EventContent, create, Serde}
use kerux.Events.Pdu.{VersionedPdu, StoredPdu, AuthStatus, Hashing, event_id}
use kerux.Storage.Mem.{MemStorage}
use kerux.Storage.Mem.Rooms.{add_pdus, get_prev_events, is_create}
use kerux.Storage.Reader.{Reader, mem_reader}
use kerux.State.{State}
use kerux.State.Resolver.Resolve.{Cache, resolve_v2}
use kerux.Util.NewEvent.{NewEvent, build_pdu}
use kerux.Validate.Auth.{auth_check_v1}

-- What the handlers share: the storage and the state resolver's cache.
pub record Server (J : Type 0) : Type 0 where
  pub db : MemStorage J
  pub cache : Cache

module _ {J : Type 0} where
  abbrev pub on_db : {A : Type 0} → Exec (MemStorage J) A → Exec (Server J) A
  on_db m s = ((m s.db).0, record s { db = (m s.db).1 })

  abbrev pub on_cache : {A : Type 0} → (MemStorage J → Exec Cache A) → Exec (Server J) A
  on_cache m s = ((m s.db s.cache).0, record s { cache = (m s.db s.cache).1 })

  module _ (S : Serde J) (H : Hashing J) (is_server_name : String → Bool) (rounds : ℕ) where
    abbrev pub stored_as : VersionedPdu J → AuthStatus → StoredPdu J
    stored_as pdu status = record { inner = pdu; auth_status = status }

    -- `state_resolver.resolve(room_id, &prev_events)`
    abbrev pub resolve : String → List String → Exec (Server J) State
    resolve room events =
        on_cache (λ db. resolve_v2 S H is_server_name (mem_reader S H db) rounds room events)

    -- `now` is what the clock shows.
    unfoldable pub add_checked : ℤ → String → NewEvent J → Exec (Server J) String
    add_checked now room event = do
      (prev_events, max_depth) ← reads (λ (s : Server J). get_prev_events S H room s.db)
      st ← resolve room prev_events
      pdu ← reads (λ (s : Server J). build_pdu H now room event prev_events max_depth st)
      status ← reads (λ (s : Server J). auth_check_v1 is_server_name (mem_reader S H s.db) pdu st)
      on_db (add_pdus (stored_as pdu status ∷ []))
      pure (event_id S H pdu)

    unfoldable pub add_event : ℤ → String → NewEvent J → Exec (Server J) String
    unfolding add_checked
    add_event now room event s =
        if is_create event.event_content then (panic, s) else add_checked now room event s
