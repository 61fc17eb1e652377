-- ===== src/Storage/Mem/Accounts/Tokens.antt =====
-- storage/mem.rs: what a client can see of access tokens and of transactions.
use kerux.Prelude.{String, ◌≡◌, refl, false, not, ◌&&◌, ◌||◌, none, some}
use kerux.Prelude.{arith, inl, inr}
use kerux.Prelude.Tests.{if◌then◌else◌, is_some, Option-cases}
use kerux.Prelude.Equality.{◌==◌, string_eq, nat_eq, option_eq, ==_refl}
use kerux.Prelude.Lists.{contains}
use kerux.Prelude.Maps.{lookup, NodupKeys, lookup-insert, lookup-remove, lookup-retain}
use kerux.Prelude.Maps.{contains-set_insert, set_insert}
use kerux.Errors.{ok, err, user_not_found}
use kerux.Storage.Mem.{Uuid, MemStorage}
use kerux.Storage.Mem.Accounts.{find_user, create_access_token, delete_access_token}
use kerux.Storage.Mem.Accounts.{delete_all_access_tokens, try_auth, txns_of, record_txn}

module _ {J : Type 0} where
  -- A new token is made exactly for a known user, and then authenticates as that user. Every other
  -- token authenticates as before, and for an unknown user nothing changes.
  try_auth-create_access_token :
      (token j : Uuid) (username device_id : String) (db : MemStorage J)
      → ((create_access_token token username device_id db).0
          ≡ (if is_some (find_user username db.users) then ok token else err user_not_found))
        × (try_auth j (create_access_token token username device_id db).1 ≡ (
            if is_some (find_user username db.users) && j == token
            then ok (some username)
            else try_auth j db))
  unfolding create_access_token try_auth
  try_auth-create_access_token token j username device_id db =
      ground (arith, lookup-insert j token username db.access_tokens)

  -- After a logout the token authenticates nobody; every other token is as before.
  pub try_auth-delete_access_token :
      (token j : Uuid) (db : MemStorage J)
      → try_auth j (delete_access_token token db).1
        ≡ (if j == token then ok none else try_auth j db)
  unfolding delete_access_token try_auth
  try_auth-delete_access_token token j db = ground (arith, lookup-remove j token db.access_tokens)

  -- After a logout everywhere exactly the tokens of that token's user are gone. Where the token
  -- authenticates nobody, nothing changes.
  pub try_auth-delete_all_access_tokens :
      (token j : Uuid) (db : MemStorage J)
      → NodupKeys db.access_tokens
      → try_auth j (delete_all_access_tokens token db).1 ≡ (
          if lookup token db.access_tokens == none
          then try_auth j db
          else if lookup j db.access_tokens == lookup token db.access_tokens
          then ok none
          else try_auth j db)
  unfolding delete_all_access_tokens try_auth
  try_auth-delete_all_access_tokens token j db u =
      elim (Option-cases (lookup token db.access_tokens)) [
        | inl e ↦ ground arith
        | inr (name, e) ↦
            ground (
              arith,
              lookup-retain (λ (t : Uuid) (n : String). not (n == name)) j db.access_tokens u,
            )
      ]

  -- A transaction is new exactly if it was not recorded under that token before, and what was
  -- recorded under a token afterwards is this transaction and what was there.
  pub contains-record_txn :
      (token j : Uuid) (txn_id k : String) (db : MemStorage J)
      → ((record_txn token txn_id db).0 ≡ ok (not (contains (txns_of token db) txn_id)))
        × (contains (txns_of j (record_txn token txn_id db).1) k
            ≡ ((j == token && k == txn_id) || contains (txns_of j db) k))
  unfolding record_txn
  contains-record_txn token j txn_id k db = ground (
    arith,
    lookup-insert j token (set_insert txn_id (txns_of token db)) db.txn_ids,
    contains-set_insert k txn_id (txns_of token db),
  )

  -- The same transaction is never new twice.
  pub record_txn_twice :
      (token : Uuid) (txn_id : String) (db : MemStorage J)
      → (record_txn token txn_id (record_txn token txn_id db).1).0 ≡ ok false
  record_txn_twice token txn_id db =
      rw ((contains-record_txn token token txn_id txn_id (record_txn token txn_id db).1).0)
        (rw ((contains-record_txn token token txn_id txn_id db).1, ==_refl, ==_refl) refl)
