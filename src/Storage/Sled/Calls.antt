-- ===== src/Storage/Sled/Calls.antt =====
-- storage/sled.rs and storage/mem.rs: the calls about accounts that clients make, and their answers
-- from each backend. `Storage` of storage/mod.rs is what both implement.
use kerux.Prelude.{ℕ, String, ◌≡◌, Bool, Option, none, List, [], ◌∷◌}
use kerux.Prelude.Maps.{lookup}
use kerux.Prelude.Equality.{nat_eq, string_eq}
use kerux.Errors.{Outcome}
use kerux.Exec.{Exec, pure, reads, ◌>>=◌}
use kerux.Storage.Query.{UserProfile, Batch}
use kerux.Storage.Mem.{Uuid, MemStorage}
use kerux.Storage.Mem.Accounts as Memory
use kerux.Storage.Mem.Accounts.{Argon}
use kerux.Storage.Sled.{Sled, SledStorage}
use kerux.Storage.Sled.Accounts

-- A method of `Storage` for accounts, with its arguments; what a method draws at random is one.
pub data Call : Type 0 where
  create_user : ℕ → String → String → Call
  verify_password : String → String → Call
  create_access_token : Uuid → String → String → Call
  delete_access_token delete_all_access_tokens try_auth : Uuid → Call
  record_txn : Uuid → String → Call
  get_profile : String → Call
  set_avatar_url set_display_name : String → String → Call
  get_batch : String → Call
  set_batch : String → Batch → Call

pub data Answer : Type 0 where
  done : Unit {0} → Answer
  whether : Bool → Answer
  token : Uuid → Answer
  username : Option String → Answer
  profile : Option UserProfile → Answer
  batch : Option Batch → Answer

module _ {S A : Type 0} where
  abbrev pub answer : (A → Answer) → Exec S A → Exec S Answer
  answer f m = m >>= λ a. pure (f a)

module _ {J : Type 0} (argon : Argon) where
  unfoldable pub call_memory : Call → Exec (MemStorage J) Answer
  call_memory (create_user salt name password) =
      answer done (Memory.create_user argon salt name password)
  call_memory (verify_password name password) =
      answer whether (reads (Memory.verify_password argon name password))
  call_memory (create_access_token t name device) =
      answer token (Memory.create_access_token t name device)
  call_memory (delete_access_token t) = answer done (Memory.delete_access_token t)
  call_memory (delete_all_access_tokens t) = answer done (Memory.delete_all_access_tokens t)
  call_memory (try_auth t) = answer username (reads (Memory.try_auth t))
  call_memory (record_txn t id) = answer whether (Memory.record_txn t id)
  call_memory (get_profile name) = answer profile (reads (Memory.get_profile name))
  call_memory (set_avatar_url name url) = answer done (Memory.set_avatar_url name url)
  call_memory (set_display_name name shown) = answer done (Memory.set_display_name name shown)
  call_memory (get_batch id) = answer batch (reads (Memory.get_batch id))
  call_memory (set_batch id b) = answer done (Memory.set_batch id b)

  -- The answers to calls, one after the other.
  unfoldable pub answers_memory : List Call → MemStorage J → List (Outcome Answer)
  unfolding call_memory
  answers_memory [] db = []
  answers_memory (c ∷ cs) db = (call_memory c db).0 ∷ answers_memory cs (call_memory c db).1

  -- A new token is one that is not in use.
  abbrev pub IsFresh : Call → MemStorage J → Type 0
  IsFresh (create_access_token t name device) db = lookup t db.access_tokens ≡ none
  IsFresh _ db = Unit {0}

  abbrev pub AreFresh : List Call → MemStorage J → Type 0
  AreFresh [] db = Unit {0}
  AreFresh (c ∷ cs) db = IsFresh c db × AreFresh cs (call_memory c db).1

module _ {J : Type 0} (D : Sled J) (argon : Argon) where
  unfoldable pub call_sled : Call → Exec (SledStorage D) Answer
  call_sled (create_user salt name password) =
      answer done (Accounts.create_user D argon salt name password)
  call_sled (verify_password name password) =
      answer whether (Accounts.verify_password D argon name password)
  call_sled (create_access_token t name device) =
      answer token (Accounts.create_access_token D t name device)
  call_sled (delete_access_token t) = answer done (Accounts.delete_access_token D t)
  call_sled (delete_all_access_tokens t) = answer done (Accounts.delete_all_access_tokens D t)
  call_sled (try_auth t) = answer username (Accounts.try_auth D t)
  call_sled (record_txn t id) = answer whether (Accounts.record_txn D t id)
  call_sled (get_profile name) = answer profile (Accounts.get_profile D name)
  call_sled (set_avatar_url name url) = answer done (Accounts.set_avatar_url D name url)
  call_sled (set_display_name name shown) = answer done (Accounts.set_display_name D name shown)
  call_sled (get_batch id) = answer batch (Accounts.get_batch D id)
  call_sled (set_batch id b) = answer done (Accounts.set_batch D id b)

  unfoldable pub answers_sled : List Call → SledStorage D → List (Outcome Answer)
  unfolding call_sled
  answers_sled [] s = []
  answers_sled (c ∷ cs) s = (call_sled c s).0 ∷ answers_sled cs (call_sled c s).1
