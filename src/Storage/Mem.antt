-- ===== src/Storage/Mem.antt =====
-- storage/mem.rs: the in-memory backend. Every method takes the lock for all of its work, but for
-- a query that waits: it releases the lock between its two halves.
pub mod Accounts
pub mod Rooms
pub mod Ephemeral
use kerux.Prelude.{ℕ, String, [], List}
use kerux.Prelude.Maps.{HashMap, HashSet}
use kerux.Mxid.{MatrixId}
use kerux.Events.Pdu.{StoredPdu}
use kerux.Storage.Query.{UserProfile, Batch}

-- A 128-bit identifier, as its number.
abbrev pub Uuid : Type 0
Uuid = ℕ

-- A moment of the monotonic clock, in milliseconds.
abbrev pub Instant : Type 0
Instant = ℕ

-- `notify_send` counts the messages that were sent to the channel.
pub record Room (J : Type 0) : Type 0 where
  pub events : List (StoredPdu J)
  pub ephemeral : HashMap String J
  pub typing : HashMap MatrixId Instant
  pub notify_send : ℕ

pub record User (J : Type 0) : Type 0 where
  pub username : String
  pub password_hash : String
  pub profile : UserProfile
  pub account_data : HashMap String J

pub record MemStorage (J : Type 0) : Type 0 where
  pub rooms : HashMap String (Room J)
  pub users : List (User J)
  pub access_tokens : HashMap Uuid String
  pub batches : HashMap String Batch
  pub txn_ids : HashMap Uuid (HashSet String)

-- `Room::new`
abbrev pub new_room : {J : Type 0} → Room J
new_room = record { events = []; ephemeral = []; typing = []; notify_send = 0 }

-- `MemStorageManager::new`
abbrev pub new_storage : {J : Type 0} → MemStorage J
new_storage = record { rooms = []; users = []; access_tokens = []; batches = []; txn_ids = [] }
