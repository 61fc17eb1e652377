-- ===== src/Storage/Sled.antt =====
-- storage/sled.rs: the backend on a sled database. Sled and bincode are given: `TreeOf` is what the
-- code calls of a tree, and `Codec` is bincode for one type of values. A tree's keys are bytes; a
-- text stands for its UTF-8 bytes and a UUID for its sixteen. What a transaction would do, which
-- nothing calls, is left out.
pub mod Accounts
pub mod Rooms
pub mod EphemeralData
pub mod Values
pub mod Agreement
pub mod Simulation
pub mod Profiles
pub mod Sessions
pub mod Batches
pub mod Logout
pub mod Calls
pub mod Refinement
pub mod Fixture
mod Tests
use kerux.Prelude.{ℕ, String, Bool, true, false, Option, none, some, List, []}
use kerux.Prelude.Tests.{is_some, if◌then◌else◌}
use kerux.Prelude.Ints.{ℤ}
use kerux.Prelude.Maps.{HashMap, HashSet}
use kerux.Errors.{Outcome, ok, ◌>>=◌}
use kerux.Exec
use kerux.Exec.{Exec, reads, pure}
use kerux.Mxid.{MatrixId}
use kerux.Events.Pdu.{StoredPdu}
use kerux.Storage.Query.{UserProfile, Batch}
use kerux.Storage.Mem.{Uuid, Instant}

-- A tree of values `B` under keys `K`. Any call may fail with an error of sled; `range` takes an
-- inclusive upper end, or none. `compare_and_swap` tells whether it has swapped.
pub record TreeOf (B K : Type 0) : Type 1 where
  pub Tree : Type 0
  pub new_tree : Tree
  pub get : K → Tree → Outcome (Option B)
  pub insert : K → B → Exec Tree (Option B)
  pub remove : K → Exec Tree (Option B)
  pub contains_key : K → Tree → Outcome Bool
  pub iter : Tree → Outcome (List (K × B))
  pub is_empty : Tree → Bool
  pub last : Tree → Outcome (Option (K × B))
  pub range : K → Option K → Tree → Outcome (List (K × B))
  pub scan_prefix : K → Tree → Outcome (List (K × B))
  pub compare_and_swap : K → Option B → Option B → Exec Tree Bool

pub record Codec (B V : Type 0) : Type 0 where
  pub serialize : V → Outcome B
  pub deserialize : B → Outcome V

-- `TreeExt` for `Tree`: trees of values that bincode writes and reads.
module _ {B K V : Type 0} (T : TreeOf B K) (C : Codec B V) where
  abbrev read_value : Option B → Outcome (Option V)
  read_value none = ok none
  read_value (some bytes) = do v ← C.deserialize bytes; ok (some v)

  unfoldable pub get_value : K → T.Tree → Outcome (Option V)
  get_value key tree = do found ← T.get key tree; read_value found

  unfoldable pub replace_value : K → V → Exec T.Tree (Option V)
  replace_value key value =
      Exec.◌>>=◌ (reads (λ _. C.serialize value))
        (λ bytes. Exec.◌>>=◌ (T.insert key bytes) (λ old. reads (λ _. read_value old)))

  -- Whether the key was new; a value that is there stays.
  abbrev insert_new : K → B → Bool → Exec T.Tree Bool
  insert_new key bytes true = pure false
  insert_new key bytes false = Exec.◌>>=◌ (T.insert key bytes) (λ _. pure true)

  unfoldable pub try_insert_value : K → V → Exec T.Tree Bool
  try_insert_value key value =
      Exec.◌>>=◌ (reads (λ _. C.serialize value))
        (λ bytes. Exec.◌>>=◌ (reads (T.contains_key key)) (insert_new key bytes))

  -- Whether the key was there.
  unfoldable pub overwrite_value : K → V → Exec T.Tree Bool
  overwrite_value key value =
      Exec.◌>>=◌ (reads (λ _. C.serialize value))
        (λ bytes. Exec.◌>>=◌ (T.insert key bytes) (λ old. pure (is_some old)))

-- The name is the key.
pub record User (J : Type 0) : Type 0 where
  pub password_hash : String
  pub profile : UserProfile
  pub account_data : HashMap String J

pub record AccessTokenData : Type 0 where
  pub username : String
  pub device_id : String

pub record Ephemeral (J : Type 0) : Type 0 where
  pub ephemeral : HashMap String J
  pub typing : HashMap MatrixId Instant

-- What the backend is built on: trees under texts, under UUIDs and under bytes, and bincode.
-- `utf8` and `from_utf8` are a text's bytes as a value, `no_bytes` is the value `&[]`, and
-- `uuid_text` is a UUID as it is printed. `open_tree` is the tree of a name among those that the
-- database has, and a new one where it has none.
pub record Sled (J : Type 0) : Type 1 where
  pub Bytes : Type 0
  pub texts : TreeOf Bytes String
  pub uuids : TreeOf Bytes Uuid
  pub orders : TreeOf Bytes (List ℕ)
  pub user_codec : Codec Bytes (User J)
  pub token_codec : Codec Bytes AccessTokenData
  pub pdu_codec : Codec Bytes (StoredPdu J)
  pub batch_codec : Codec Bytes Batch
  pub depth_codec : Codec Bytes ℤ
  pub utf8 : String → Bytes
  pub from_utf8 : Bytes → Option String
  pub no_bytes : Bytes
  pub uuid_text : Uuid → String
  pub open_tree : String → HashMap String orders.Tree → Outcome orders.Tree

-- `SledStorageHandle`. `orderings` are the database's trees under the names of rooms; a handle of
-- one is its name, and `room_orderings` has those that were opened. A room whose identifier is the
-- name of another of the trees is not considered.
pub record SledStorage {J : Type 0} (D : Sled J) : Type 0 where
  pub events : D.texts.Tree
  pub rooms : D.texts.Tree
  pub users : D.texts.Tree
  pub access_tokens : D.uuids.Tree
  pub txn_ids : D.texts.Tree
  pub batches : D.texts.Tree
  pub orderings : HashMap String D.orders.Tree
  pub room_orderings : HashSet String
  pub headless_events : D.texts.Tree
  pub ephemeral : HashMap String (Ephemeral J)

-- `SledStorage::new`, on a path with no database.
abbrev pub new_storage : {J : Type 0} (D : Sled J) → SledStorage D
new_storage D = record {
  events = D.texts.new_tree;
  rooms = D.texts.new_tree;
  users = D.texts.new_tree;
  access_tokens = D.uuids.new_tree;
  txn_ids = D.texts.new_tree;
  batches = D.texts.new_tree;
  orderings = [];
  room_orderings = [];
  headless_events = D.texts.new_tree;
  ephemeral = [];
}
