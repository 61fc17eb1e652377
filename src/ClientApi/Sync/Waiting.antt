-- ===== src/ClientApi/Sync/Waiting.antt =====
-- client_api/room_events.rs: `sync`, with its waiting. Other requests run while it waits: the storage
-- that it wakes up to is an argument, with the query that ends first.
use kerux.Prelude.{ℕ, zero, suc, String, false, Option, none, some}
use kerux.Prelude.{List, [], ◌∷◌, map}
use kerux.Prelude.Tests.{if◌then◌else◌}
use kerux.Prelude.Equality.{◌==◌, string_eq}
use kerux.Prelude.Lists.{is_empty, keep}
use kerux.Prelude.Maps.{HashMap}
use kerux.Errors.{ok}
use kerux.Exec.{Exec, reads, pure, ◌>>=◌, ◌>>◌}
use kerux.Events.Room.{Membership, membership_eq, unwrap_or}
use kerux.Storage.Query.{Batch, default_batch}
use kerux.Storage.Mem.{Uuid, Instant, MemStorage}
use kerux.Storage.Mem.Accounts.{get_batch, set_batch}
use kerux.Storage.Mem.Rooms.{get_rooms}
use kerux.Storage.Mem.Ephemeral.{Typing}
use kerux.Storage.Reader.{mem_reader}
use kerux.Util.AddEvent.{Server, on_db}
use kerux.ClientApi.{Context, signed_in}
use kerux.ClientApi.Sync.{SyncRequest, SyncResponse, Progress}
use kerux.ClientApi.Sync.{memberships_of, sync_rooms, woken}

-- What the waiting comes to: the query that ends first, by its position, and the storage that is
-- found then. Where no query has that position it is the timer that ends first.
pub record Wake (J : Type 0) : Type 0 where
  pub first : ℕ
  pub later : MemStorage J

-- The rooms with a query that waits.
abbrev pub waiting_rooms : HashMap String Membership → List String
waiting_rooms memberships =
    map (λ (e : String × Membership). e.0)
      (keep (λ (e : String × Membership). e.1 == Membership.join) memberships)

unfoldable pub nth : ℕ → List String → Option String
nth n [] = none
nth zero (x ∷ xs) = some x
nth (suc n) (x ∷ xs) = nth n xs

module _ {J : Type 0} (cx : Context J) (to_value : Typing → J) where
  abbrev pub respond : String → Progress J → Exec (Server J) (SyncResponse J)
  respond next_batch p =
      on_db (set_batch next_batch p.batch)
      >> pure (record { next_batch = next_batch; rooms = p.rooms })

  -- Others change the storage while the handler waits.
  abbrev pub wake_up : MemStorage J → Exec (Server J) (Unit {0})
  wake_up later s = (ok tt, record s { db = later })

  -- `select!`, on the storage that the queries found.
  abbrev pub select_first :
      Instant
      → String
      → Option String
      → Progress J
      → MemStorage J
      → Exec (Server J) (SyncResponse J)
  select_first now next_batch none p db = respond next_batch p
  select_first now next_batch (some room) p db = do
    p' ← reads (λ (s : Server J). woken cx to_value now db s.db room p)
    respond next_batch p'

  abbrev pub wait_for :
      Instant → Wake J → String → List String → Progress J → Exec (Server J) (SyncResponse J)
  wait_for now wake next_batch queries p s =
      (if is_empty queries
          then respond next_batch p
          else wake_up wake.later >> select_first now next_batch (nth wake.first queries) p s.db)
        s

  abbrev pub start_of : Option Batch → Progress J
  start_of batch = record {
    batch = unwrap_or batch default_batch;
    rooms = none;
    something_happened = false;
  }

  unfoldable pub sync :
      Instant → Instant → Wake J → String → Uuid → SyncRequest → Exec (Server J) (SyncResponse J)
  unfolding memberships_of sync_rooms woken nth
  sync now woken_at wake next_batch token req = do
    user_id ← signed_in cx token
    batch ← reads (λ (s : Server J). get_batch (unwrap_or req.since "empty") s.db)
    rooms ← reads (λ (s : Server J). get_rooms s.db)
    memberships ←
        reads (λ (s : Server J). memberships_of (mem_reader cx.serde cx.hashing s.db) user_id rooms)
    p ← reads (λ (s : Server J).
        sync_rooms cx to_value now s.db req.full_state memberships (start_of batch))
    (if p.something_happened
        then respond next_batch p
        else wait_for woken_at wake next_batch (waiting_rooms memberships) p)
