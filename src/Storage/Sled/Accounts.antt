-- ===== src/Storage/Sled/Accounts.antt =====
-- storage/sled.rs: users, passwords, access tokens, transactions, profiles and batches.
use Prim.Native.String.{◌++◌ as ◌<>◌}
use kerux.Prelude.{ℕ, String, Bool, true, false, not, Option, none, some, List, [], ◌∷◌}
use kerux.Prelude.Tests.{is_some, map_option, if◌then◌else◌}
use kerux.Prelude.Equality.{◌==◌, string_eq}
use kerux.Prelude.Maps.{HashMap}
use kerux.Errors
use kerux.Errors.{Outcome, ok, panic, username_taken, user_not_found}
use kerux.Exec.{Exec, reads, pure, raise, ok_or, ◌>>=◌, ◌>>◌}
use kerux.Storage.Query.{UserProfile, Batch, default_profile}
use kerux.Storage.Mem.{Uuid}
use kerux.Storage.Mem.Accounts.{Argon}
use kerux.Storage.Sled.{User, AccessTokenData, Sled, SledStorage}
use kerux.Storage.Sled.{get_value, try_insert_value, overwrite_value}

module _ {J : Type 0} (D : Sled J) where
  -- A call of one of the trees.
  abbrev pub on_users : {A : Type 0} → Exec D.texts.Tree A → Exec (SledStorage D) A
  on_users m s = ((m s.users).0, record s { users = (m s.users).1 })

  abbrev pub on_tokens : {A : Type 0} → Exec D.uuids.Tree A → Exec (SledStorage D) A
  on_tokens m s = ((m s.access_tokens).0, record s { access_tokens = (m s.access_tokens).1 })

  abbrev pub on_txn_ids : {A : Type 0} → Exec D.texts.Tree A → Exec (SledStorage D) A
  on_txn_ids m s = ((m s.txn_ids).0, record s { txn_ids = (m s.txn_ids).1 })

  abbrev pub on_batches : {A : Type 0} → Exec D.texts.Tree A → Exec (SledStorage D) A
  on_batches m s = ((m s.batches).0, record s { batches = (m s.batches).1 })

  abbrev pub find_user : String → Exec (SledStorage D) (Option (User J))
  find_user username = on_users (reads (get_value D.texts D.user_codec username))

  abbrev pub fresh_user : String → User J
  fresh_user password_hash = record {
    password_hash = password_hash;
    profile = default_profile;
    account_data = [];
  }

  abbrev pub inserted : Bool → Exec (SledStorage D) (Unit {0})
  inserted true = pure tt
  inserted false = raise username_taken

  -- The salt is the random number that the method draws.
  unfoldable pub create_user : Argon → ℕ → String → String → Exec (SledStorage D) (Unit {0})
  create_user argon salt username password = do
    password_hash ← reads (λ _. argon.hash_encoded password salt)
    did_insert ←
        on_users (try_insert_value D.texts D.user_codec username (fresh_user password_hash))
    inserted did_insert

  abbrev pub verified : Argon → String → Option (User J) → Bool
  verified argon password none = false
  verified argon password (some user) = elim (argon.verify_encoded user.password_hash password) [
    | none ↦ false
    | some right ↦ right
  ]

  unfoldable pub verify_password : Argon → String → String → Exec (SledStorage D) Bool
  verify_password argon username password = do
    user ← find_user username
    pure (verified argon password user)

  abbrev pub known_only : Bool → Exec (SledStorage D) (Unit {0})
  known_only true = pure tt
  known_only false = raise user_not_found

  -- The token is the random identifier that the method draws.
  unfoldable pub create_access_token : Uuid → String → String → Exec (SledStorage D) Uuid
  create_access_token token username device_id = do
    known ← on_users (reads (D.texts.contains_key username))
    known_only known
    on_tokens (
        try_insert_value D.uuids D.token_codec token
          (record { username = username; device_id = device_id }))
    pure token

  unfoldable pub delete_access_token : Uuid → Exec (SledStorage D) (Unit {0})
  delete_access_token token = do on_tokens (D.uuids.remove token); pure tt

  -- `deserialize(..).unwrap()`
  abbrev pub unwrapped : Outcome AccessTokenData → Outcome AccessTokenData
  unwrapped (ok data_of) = ok data_of
  unwrapped _ = panic

  -- The loop over the tree, which collects the keys of a user.
  unfoldable pub keys_of : String → List (Uuid × D.Bytes) → Outcome (List Uuid)
  keys_of username [] = ok []
  keys_of username ((key, val) ∷ entries) =
      Errors.◌>>=◌ (unwrapped (D.token_codec.deserialize val)) (λ found.
        Errors.◌>>=◌ (keys_of username entries)
          (λ keys. ok (if found.username == username then key ∷ keys else keys)))

  unfoldable pub remove_all : List Uuid → Exec (SledStorage D) (Unit {0})
  remove_all [] = pure tt
  remove_all (key ∷ keys) = on_tokens (D.uuids.remove key) >> remove_all keys

  abbrev pub delete_of : Option AccessTokenData → Exec (SledStorage D) (Unit {0})
  delete_of none = pure tt
  delete_of (some found) = do
    entries ← on_tokens (reads D.uuids.iter)
    to_delete ← reads (λ _. keys_of found.username entries)
    remove_all to_delete

  unfoldable pub delete_all_access_tokens : Uuid → Exec (SledStorage D) (Unit {0})
  unfolding keys_of remove_all
  delete_all_access_tokens token = do
    found ← on_tokens (reads (get_value D.uuids D.token_codec token))
    delete_of found

  unfoldable pub try_auth : Uuid → Exec (SledStorage D) (Option String)
  try_auth token = do
    found ← on_tokens (reads (get_value D.uuids D.token_codec token))
    pure (map_option (λ (d : AccessTokenData). d.username) found)

  -- `format!("{}_{}", token, txn_id)`
  abbrev pub txn_name : Uuid → String → String
  txn_name token txn_id = D.uuid_text token <> ("_" <> txn_id)

  unfoldable pub record_txn : Uuid → String → Exec (SledStorage D) Bool
  record_txn token txn_id = do
    old ← on_txn_ids (D.texts.insert (txn_name token txn_id) D.no_bytes)
    pure (not (is_some old))

  unfoldable pub get_profile : String → Exec (SledStorage D) (Option UserProfile)
  get_profile username = do
    user ← find_user username
    pure (map_option (λ (u : User J). u.profile) user)

  -- A user is read, changed and written back.
  abbrev pub update_user : (User J → User J) → String → Exec (SledStorage D) (Unit {0})
  update_user change username = do
    found ← find_user username
    user ← ok_or found user_not_found
    on_users (overwrite_value D.texts D.user_codec username (change user))
    pure tt

  abbrev pub with_avatar : String → User J → User J
  with_avatar avatar_url u = record u {
    profile = record u.profile { avatar_url = some avatar_url };
  }

  abbrev pub with_name : String → User J → User J
  with_name display_name u = record u {
    profile = record u.profile { displayname = some display_name };
  }

  unfoldable pub set_avatar_url : String → String → Exec (SledStorage D) (Unit {0})
  set_avatar_url username avatar_url = update_user (with_avatar avatar_url) username

  unfoldable pub set_display_name : String → String → Exec (SledStorage D) (Unit {0})
  set_display_name username display_name = update_user (with_name display_name) username

  unfoldable pub get_user_account_data : String → Exec (SledStorage D) (HashMap String J)
  get_user_account_data username = do
    found ← find_user username
    user ← ok_or found user_not_found
    pure user.account_data

  unfoldable pub get_batch : String → Exec (SledStorage D) (Option Batch)
  get_batch id = on_batches (reads (get_value D.texts D.batch_codec id))

  unfoldable pub set_batch : String → Batch → Exec (SledStorage D) (Unit {0})
  set_batch id batch = do on_batches (overwrite_value D.texts D.batch_codec id batch); pure tt
