-- ===== src/Storage/Sled/Sessions.antt =====
-- storage/sled.rs and storage/mem.rs: the same for access tokens, transactions and batches.
use kerux.Prelude.{
  String, ◌≡◌, ◌≢◌, refl, ap, ◌∙◌, true, false, ◌&&◌, Option, none, some, inl, inr, arith,
}
use kerux.Prelude.Tests.{is_some, if◌then◌else◌, Bool-cases, Option-cases}
use kerux.Prelude.Equality.{◌==◌, ==-eq, ==-ne, eq-==, string_eq, nat_eq}
use kerux.Prelude.Lists.{contains}
use kerux.Prelude.Maps.{
  HashMap, lookup, insert, NodupKeys, lookup-insert, lookup-remove, remove, insert-NodupKeys,
  remove-NodupKeys,
}
use kerux.Errors.{ok}
use kerux.Storage.Mem.{Uuid, MemStorage}
use kerux.Storage.Mem.Accounts as Memory
use kerux.Storage.Mem.Accounts.{Argon}
use kerux.Storage.Sled.{AccessTokenData, Sled, SledStorage}
use kerux.Storage.Sled.{try_insert_value}
use kerux.Storage.Sled.Accounts
use kerux.Storage.Sled.Values.{Holds, update, insert-Holds}
use kerux.Storage.Sled.Values.{remove-Holds, try_insert_value-eq, written_as}
use kerux.Storage.Sled.Agreement.{IsSled, Agrees, tokens_of, txn_name-injective}
use kerux.Storage.Sled.Simulation.{Same}
use kerux.Storage.Mem.Accounts.Tokens as Tokens

module _ {J : Type 0} (D : Sled J) (laws : IsSled D) where
  -- Another tree of tokens, and other tokens, that agree.
  pub with_tokens :
      (s : SledStorage D) (db : MemStorage J) (device : Uuid → String) (t : D.uuids.Tree)
      (tokens : HashMap Uuid String)
      → Agrees D laws s db
      → Holds D.uuids D.token_codec laws.uuids_lem laws.tokens_lem t (tokens_of device tokens)
      → NodupKeys tokens
      → Agrees D laws (record s { access_tokens = t }) (record db { access_tokens = tokens })
  with_tokens s db device t tokens a h n = record {
    device = device;
    users_agree = a.users_agree;
    tokens_agree = h;
    tokens_nodup = n;
    txns_agree = a.txns_agree;
    batches_agree = a.batches_agree;
  }

  knows :
      (name : String) (s : SledStorage D) (db : MemStorage J)
      → Agrees D laws s db
      → D.texts.contains_key name s.users ≡ ok (is_some (Memory.find_user name db.users))
  knows name s db a =
      laws.texts_lem.contains_lem name s.users
      ∙ ap (λ (x : Option D.Bytes). ok (is_some x)) (a.users_agree name)
      ∙ ap ok (ground arith)

  -- A random token is one that is not in use.
  pub create_access_token-Same :
      (token : Uuid) (name device_id : String) (s : SledStorage D) (db : MemStorage J)
      → lookup token db.access_tokens ≡ none
      → Agrees D laws s db
      → Same D laws
          (Accounts.create_access_token D token name device_id s)
          (Memory.create_access_token token name device_id db)
  unfolding Accounts.create_access_token Memory.create_access_token
  create_access_token-Same token name device_id s db fresh a =
      elim (Option-cases (Memory.find_user name db.users)) [
        | inl missing ↦ rw (knows name s db a, missing, Memory.create_access_token) (refl, a)
        | inr (u, there) ↦
            rw (knows name s db a, there, tried, fresh, Memory.create_access_token)
              (
                refl,
                with_tokens s db with_device _ (insert token name db.access_tokens) a
                    (λ j.
                      insert-Holds D.uuids D.token_codec laws.uuids_lem laws.tokens_lem token made
                        s.access_tokens (tokens_of a.device db.access_tokens) a.tokens_agree j
                      ∙ ap (written_as D.uuids D.token_codec laws.uuids_lem laws.tokens_lem)
                          (found j))
                    (insert-NodupKeys token name db.access_tokens a.tokens_nodup),
              )
      ]
    where
      made : AccessTokenData
      made = record { username = name; device_id = device_id }

      with_device : Uuid → String
      with_device t = if t == token then device_id else a.device t

      tried : try_insert_value D.uuids D.token_codec token made s.access_tokens ≡ (
          if is_some (tokens_of a.device db.access_tokens token)
          then (ok false, s.access_tokens)
          else (ok true, (D.uuids.insert token (laws.tokens_lem.written made) s.access_tokens).1))
      tried =
          try_insert_value-eq D.uuids D.token_codec laws.uuids_lem laws.tokens_lem token made
            s.access_tokens (tokens_of a.device db.access_tokens) a.tokens_agree

      found :
          (j : Uuid)
          → update D.uuids D.token_codec laws.uuids_lem laws.tokens_lem token
              (some made)
              (tokens_of a.device db.access_tokens)
              j
            ≡ tokens_of with_device (insert token name db.access_tokens) j
      found j = ground (arith, lookup-insert j token name db.access_tokens)

  pub delete_access_token-Same :
      (token : Uuid) (s : SledStorage D) (db : MemStorage J)
      → Agrees D laws s db
      → Same D laws (Accounts.delete_access_token D token s) (Memory.delete_access_token token db)
  unfolding Accounts.delete_access_token Memory.delete_access_token
  delete_access_token-Same token s db a = rw (laws.uuids_lem.remove_lem token s.access_tokens) (
    refl,
    with_tokens s db a.device _ (remove token db.access_tokens) a
        (λ j.
          remove-Holds D.uuids D.token_codec laws.uuids_lem laws.tokens_lem token s.access_tokens
            (tokens_of a.device db.access_tokens) a.tokens_agree j
          ∙ ap (written_as D.uuids D.token_codec laws.uuids_lem laws.tokens_lem) (found j))
        (remove-NodupKeys token db.access_tokens a.tokens_nodup),
  )
    where
      found :
          (j : Uuid)
          → update D.uuids D.token_codec laws.uuids_lem laws.tokens_lem token none
              (tokens_of a.device db.access_tokens)
              j
            ≡ tokens_of a.device (remove token db.access_tokens) j
      found j = ground (arith, lookup-remove j token db.access_tokens)

  same_name :
      (j token : Uuid) (k id : String)
      → (Accounts.txn_name D j k == Accounts.txn_name D token id) ≡ (j == token && k == id)
  same_name j token k id =
      elim (Bool-cases (Accounts.txn_name D j k == Accounts.txn_name D token id)) [
        | inl e ↦
            let (t, i) =
              txn_name-injective D laws j token k id
                (==-eq (Accounts.txn_name D j k) (Accounts.txn_name D token id) e) in
            rw (e, eq-== j token t, eq-== k id i) refl
        | inr e ↦ rw e (differ (==-ne (Accounts.txn_name D j k) (Accounts.txn_name D token id) e))
      ]
    where
      names : j ≡ token → k ≡ id → Accounts.txn_name D j k ≡ Accounts.txn_name D token id
      names t i = cc

      differ :
          Accounts.txn_name D j k ≢ Accounts.txn_name D token id → false ≡ (j == token && k == id)
      differ n = ground (arith, names)

  pub record_txn-Same :
      (token : Uuid) (id : String) (s : SledStorage D) (db : MemStorage J)
      → Agrees D laws s db
      → Same D laws (Accounts.record_txn D token id s) (Memory.record_txn token id db)
  unfolding Accounts.record_txn Memory.record_txn
  record_txn-Same token id s db a =
      rw
        (
          laws.texts_lem.insert_lem (Accounts.txn_name D token id) D.no_bytes s.txn_ids,
          a.txns_agree token id,
        )
        (
          refl,
          record {
            device = a.device;
            users_agree = a.users_agree;
            tokens_agree = a.tokens_agree;
            tokens_nodup = a.tokens_nodup;
            txns_agree = recorded;
            batches_agree = a.batches_agree;
          },
        )
    where
      recorded :
          (j : Uuid) (k : String)
          → is_some (
              lookup (Accounts.txn_name D j k) (
                laws.texts_lem.entries
                  (D.texts.insert (Accounts.txn_name D token id) D.no_bytes s.txn_ids).1))
            ≡ contains (Memory.txns_of j (Memory.record_txn token id db).1) k
      recorded j k =
          rw
            (
              laws.texts_lem.lookup-insert (Accounts.txn_name D j k) (Accounts.txn_name D token id)
                  D.no_bytes s.txn_ids,
              same_name j token k id,
              (Tokens.contains-record_txn token j id k db).1,
            )
            (ground (arith, a.txns_agree j k))
