-- ===== src/Storage/Sled/Simulation.antt =====
-- storage/sled.rs and storage/mem.rs: one call of the accounts, on a database and on the memory that
-- agree, gives the same answer and leaves them in agreement.
use kerux.Prelude.{ℕ, String, ◌≡◌, refl, ap, ◌∙◌, true, false, none, some, List, inl, inr, arith}
use kerux.Prelude.Tests.{is_some, if◌then◌else◌, Option-cases}
use kerux.Prelude.Equality.{string_eq, nat_eq}
use kerux.Errors.{Outcome, ok, err, panic, running}
use kerux.Exec.{continue}
use kerux.Storage.Mem.{Uuid, MemStorage}
use kerux.Storage.Mem as Mem
use kerux.Storage.Mem.Accounts as Memory
use kerux.Storage.Mem.Accounts.Users as Users
use kerux.Storage.Mem.Accounts.{Argon}
use kerux.Storage.Sled.{Sled, SledStorage}
use kerux.Storage.Sled.{get_value, try_insert_value}
use kerux.Storage.Sled.Accounts
use kerux.Storage.Sled.Values.{Holds, update, get_value-Holds, insert-Holds}
use kerux.Storage.Sled.Values.{try_insert_value-eq, written_as}
use kerux.Storage.Sled.Agreement.{IsSled, Agrees, users_of, tokens_of}

module _ {J : Type 0} (D : Sled J) (laws : IsSled D) where
  -- The same answer, and agreement again.
  abbrev pub Same : {A : Type 0} → Outcome A × SledStorage D → Outcome A × MemStorage J → Type 0
  Same x y = (x.0 ≡ y.0) × Agrees D laws x.1 y.1

  -- Another users' tree, and other users, that agree.
  pub with_users :
      (s : SledStorage D) (db : MemStorage J) (t : D.texts.Tree) (users : List (Mem.User J))
      → Agrees D laws s db
      → Holds D.texts D.user_codec laws.texts_lem laws.users_lem t (users_of users)
      → Agrees D laws (record s { users = t }) (record db { users = users })
  with_users s db t users a h = record {
    device = a.device;
    users_agree = h;
    tokens_agree = a.tokens_agree;
    tokens_nodup = a.tokens_nodup;
    txns_agree = a.txns_agree;
    batches_agree = a.batches_agree;
  }

  inserted :
      (h username : String) (s : SledStorage D) (db : MemStorage J)
      → Agrees D laws s db
      → Same
          (continue
            (Accounts.on_users D
              (try_insert_value D.texts D.user_codec username (Accounts.fresh_user D h))
              s).0
            (Accounts.inserted D)
            (Accounts.on_users D
              (try_insert_value D.texts D.user_codec username (Accounts.fresh_user D h))
              s).1)
          (Memory.insert_user username h db)
  unfolding Memory.insert_user
  inserted h username s db a = elim (Option-cases (Memory.find_user username db.users)) [
    | inl fresh ↦
        rw (tried, fresh, Memory.insert_user)
          (
            refl,
            with_users s db _ (Memory.add_user username h db.users) a (λ j.
                insert-Holds D.texts D.user_codec laws.texts_lem laws.users_lem username
                  (Accounts.fresh_user D h) s.users (users_of db.users) a.users_agree j
                ∙ ap (written_as D.texts D.user_codec laws.texts_lem laws.users_lem)
                    (found fresh j)),
          )
    | inr (u, taken) ↦ rw (tried, taken, Memory.insert_user) (refl, a)
  ]
    where
      tried : try_insert_value D.texts D.user_codec username (Accounts.fresh_user D h) s.users ≡ (
          if is_some (users_of db.users username) then (ok false, s.users) else (
            ok true,
            (D.texts.insert username (laws.users_lem.written (Accounts.fresh_user D h)) s.users).1,
          ))
      tried =
          try_insert_value-eq D.texts D.user_codec laws.texts_lem laws.users_lem username
            (Accounts.fresh_user D h) s.users (users_of db.users) a.users_agree

      found :
          Memory.find_user username db.users ≡ none
          → (j : String)
          → update D.texts D.user_codec laws.texts_lem laws.users_lem username
              (some (Accounts.fresh_user D h))
              (users_of db.users)
              j
            ≡ users_of (Memory.add_user username h db.users) j
      found fresh j = ground (arith, Users.find_user-add_user j username h db.users)

  insert_continues :
      (r : Outcome String) (username : String) (s : SledStorage D) (db : MemStorage J)
      → Agrees D laws s db
      → Same
          (continue r
            (λ h s'.
              continue
                (Accounts.on_users D
                  (try_insert_value D.texts D.user_codec username (Accounts.fresh_user D h))
                  s').0
                (Accounts.inserted D)
                (Accounts.on_users D
                  (try_insert_value D.texts D.user_codec username (Accounts.fresh_user D h))
                  s').1)
            s)
          (continue r (Memory.insert_user username) db)
  insert_continues (ok h) username s db a = inserted h username s db a
  insert_continues (err e) username s db a = (refl, a)
  insert_continues panic username s db a = (refl, a)
  insert_continues running username s db a = (refl, a)

  pub create_user-Same :
      (argon : Argon) (salt : ℕ) (username password : String) (s : SledStorage D)
      (db : MemStorage J)
      → Agrees D laws s db
      → Same
          (Accounts.create_user D argon salt username password s)
          (Memory.create_user argon salt username password db)
  unfolding Accounts.create_user Memory.create_user
  create_user-Same argon salt username password s db a =
      insert_continues (argon.hash_encoded password salt) username s db a

  -- What the tree of users has under a name.
  pub read_user :
      (name : String) (s : SledStorage D) (db : MemStorage J)
      → Agrees D laws s db
      → get_value D.texts D.user_codec name s.users ≡ ok (users_of db.users name)
  read_user name s db a =
      get_value-Holds D.texts D.user_codec laws.texts_lem laws.users_lem name s.users
        (users_of db.users) a.users_agree

  verified-stored :
      (argon : Argon) (name password : String) (db : MemStorage J)
      → ok (Accounts.verified D argon password (users_of db.users name))
        ≡ Memory.verify_password argon name password db
  unfolding Memory.verify_password
  verified-stored argon name password db = ground arith

  pub verify_password-Same :
      (argon : Argon) (name password : String) (s : SledStorage D) (db : MemStorage J)
      → Agrees D laws s db
      → Same
          (Accounts.verify_password D argon name password s)
          (Memory.verify_password argon name password db, db)
  unfolding Accounts.verify_password
  verify_password-Same argon name password s db a =
      rw (read_user name s db a) (verified-stored argon name password db, a)

  pub get_profile-Same :
      (name : String) (s : SledStorage D) (db : MemStorage J)
      → Agrees D laws s db
      → Same (Accounts.get_profile D name s) (Memory.get_profile name db, db)
  unfolding Accounts.get_profile Memory.get_profile
  get_profile-Same name s db a = rw (read_user name s db a) (ground arith, a)

  pub try_auth-Same :
      (token : Uuid) (s : SledStorage D) (db : MemStorage J)
      → Agrees D laws s db
      → Same (Accounts.try_auth D token s) (Memory.try_auth token db, db)
  unfolding Accounts.try_auth Memory.try_auth
  try_auth-Same token s db a =
      rw
        (get_value-Holds D.uuids D.token_codec laws.uuids_lem laws.tokens_lem token s.access_tokens
          (tokens_of a.device db.access_tokens) a.tokens_agree)
        (ground arith, a)
