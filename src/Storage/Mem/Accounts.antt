-- ===== src/Storage/Mem/Accounts.antt =====
-- storage/mem.rs: users, passwords, access tokens, transactions, profiles and batches.
pub mod Tokens
pub mod Users
mod Tests
use kerux.Prelude.{ℕ, String, Bool, true, false, not, Option, none, some, List, [], ◌∷◌, ◌++◌}
use kerux.Prelude.Tests.{if◌then◌else◌}
use kerux.Prelude.Equality.{◌==◌, string_eq, nat_eq}
use kerux.Prelude.Lists.{contains, find}
use kerux.Prelude.Maps.{HashMap, HashSet, lookup, insert, remove, retain, set_insert}
use kerux.Errors.{Outcome, ok, err, username_taken, user_not_found}
use kerux.Exec.{Exec, reads, ◌>>=◌}
use kerux.Storage.Query.{UserProfile, Batch, default_profile}
use kerux.Storage.Mem.{Uuid, User, MemStorage}

-- The argon2 crate: hashing a password with a salt may fail, and so may a verification.
pub record Argon : Type 0 where
  pub hash_encoded : String → ℕ → Outcome String
  pub verify_encoded : String → String → Option Bool

module _ {J : Type 0} where
  -- `users.iter().find(|u| u.username == username)`
  abbrev pub find_user : String → List (User J) → Option (User J)
  find_user username = find (λ (u : User J). u.username == username)

  abbrev pub fresh_user : String → String → User J
  fresh_user username password_hash = record {
    username = username;
    password_hash = password_hash;
    profile = default_profile;
    account_data = [];
  }

  abbrev pub add_user : String → String → List (User J) → List (User J)
  add_user username password_hash users = users ++ (fresh_user username password_hash ∷ [])

  unfoldable pub insert_user : String → String → Exec (MemStorage J) (Unit {0})
  insert_user username password_hash db = elim (find_user username db.users) [
    | some u ↦ (err username_taken, db)
    | none ↦ (ok tt, record db { users = add_user username password_hash db.users })
  ]

  -- The salt is the random number that the method draws. Hashing comes before the test.
  unfoldable pub create_user : Argon → ℕ → String → String → Exec (MemStorage J) (Unit {0})
  unfolding insert_user
  create_user argon salt username password = do
    password_hash ← reads (λ db. argon.hash_encoded password salt)
    insert_user username password_hash

  unfoldable pub verify_password : Argon → String → String → MemStorage J → Outcome Bool
  verify_password argon username password db = elim (find_user username db.users) [
    | none ↦ ok false
    | some u ↦ elim (argon.verify_encoded u.password_hash password) [
      | none ↦ ok false
      | some right ↦ ok right
    ]
  ]

  -- The token is the random identifier that the method draws.
  unfoldable pub create_access_token : Uuid → String → String → Exec (MemStorage J) Uuid
  create_access_token token username device_id db = elim (find_user username db.users) [
    | none ↦ (err user_not_found, db)
    | some u ↦ (ok token, record db { access_tokens = insert token username db.access_tokens })
  ]

  unfoldable pub delete_access_token : Uuid → Exec (MemStorage J) (Unit {0})
  delete_access_token token db =
      (ok tt, record db { access_tokens = remove token db.access_tokens })

  unfoldable pub delete_all_access_tokens : Uuid → Exec (MemStorage J) (Unit {0})
  delete_all_access_tokens token db = elim (lookup token db.access_tokens) [
    | none ↦ (ok tt, db)
    | some username ↦ (
      ok tt,
      record db { access_tokens = retain (λ t name. not (name == username)) db.access_tokens },
    )
  ]

  unfoldable pub try_auth : Uuid → MemStorage J → Outcome (Option String)
  try_auth token db = ok (lookup token db.access_tokens)

  -- `entry(token).or_insert_with(HashSet::new)`
  abbrev pub txns_of : Uuid → MemStorage J → HashSet String
  txns_of token db = elim (lookup token db.txn_ids) [ none ↦ [] | some set ↦ set ]

  unfoldable pub record_txn : Uuid → String → Exec (MemStorage J) Bool
  record_txn token txn_id db = (
    ok (not (contains (txns_of token db) txn_id)),
    record db { txn_ids = insert token (set_insert txn_id (txns_of token db)) db.txn_ids },
  )

  unfoldable pub get_profile : String → MemStorage J → Outcome (Option UserProfile)
  get_profile username db = elim (find_user username db.users) [
    | none ↦ ok none
    | some u ↦ ok (some u.profile)
  ]

  -- `iter_mut().find(..)` and a change of the user that it finds.
  unfoldable pub update_user : (User J → User J) → String → List (User J) → Option (List (User J))
  update_user change username [] = none
  update_user change username (u ∷ users) =
      if u.username == username
      then some (change u ∷ users)
      else elim (update_user change username users) [
        | none ↦ none
        | some users' ↦ some (u ∷ users')
      ]

  unfoldable pub change_user : (User J → User J) → String → Exec (MemStorage J) (Unit {0})
  change_user change username db = elim (update_user change username db.users) [
    | none ↦ (err user_not_found, db)
    | some users ↦ (ok tt, record db { users = users })
  ]

  abbrev pub with_avatar : String → User J → User J
  with_avatar avatar_url u = record u {
    profile = record u.profile { avatar_url = some avatar_url };
  }

  abbrev pub with_name : String → User J → User J
  with_name display_name u = record u {
    profile = record u.profile { displayname = some display_name };
  }

  unfoldable pub set_avatar_url : String → String → Exec (MemStorage J) (Unit {0})
  set_avatar_url username avatar_url = change_user (with_avatar avatar_url) username

  unfoldable pub set_display_name : String → String → Exec (MemStorage J) (Unit {0})
  set_display_name username display_name = change_user (with_name display_name) username

  pub get_user_account_data : String → MemStorage J → Outcome (HashMap String J)
  get_user_account_data username db = elim (find_user username db.users) [
    | none ↦ ok []
    | some u ↦ ok u.account_data
  ]

  unfoldable pub get_batch : String → MemStorage J → Outcome (Option Batch)
  get_batch id db = ok (lookup id db.batches)

  unfoldable pub set_batch : String → Batch → Exec (MemStorage J) (Unit {0})
  set_batch id batch db = (ok tt, record db { batches = insert id batch db.batches })
