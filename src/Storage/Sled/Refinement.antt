-- ===== src/Storage/Sled/Refinement.antt =====
-- storage/sled.rs and storage/mem.rs: the two backends as clients see their accounts, over any
-- sequence of calls. `Storage` of storage/mod.rs is what both implement.
use kerux.Prelude.{String, ◌≡◌, refl, sym, ap, ◌∙◌, subst, none, List, [], ◌∷◌}
use mathlib.Core.Path.{ap₂}
use kerux.Prelude.Maps.{HashSet, lookup-nil}
use kerux.Prelude.Equality.{nat_eq, string_eq}
use kerux.Errors.{Outcome, ok, err, panic, running}
use kerux.Exec.{continue, pure}
use kerux.Storage.Query.{Batch}
use kerux.Storage.Mem.{Uuid, MemStorage}
use kerux.Storage.Mem as Mem
use kerux.Storage.Mem.Accounts as Memory
use kerux.Storage.Mem.Accounts.{Argon}
use kerux.Storage.Sled as Database
use kerux.Storage.Sled.{Sled, SledStorage}
use kerux.Storage.Sled.Accounts
use kerux.Storage.Sled.Values.{new-Holds, written_as}
use kerux.Storage.Sled.Agreement.{IsSled, Agrees, tokens_of}
use kerux.Storage.Sled.Simulation as Simulation
use kerux.Storage.Sled.Simulation.{Same}
use kerux.Storage.Sled.Sessions as Sessions
use kerux.Storage.Sled.Profiles as Profiles
use kerux.Storage.Sled.Batches as Batches
use kerux.Storage.Sled.Logout as Logout
use kerux.Storage.Sled.Calls.{
  Answer, AreFresh, Call, IsFresh, answers_memory, answers_sled, batch, call_memory, call_sled,
  create_access_token, create_user, delete_access_token, delete_all_access_tokens, done, get_batch,
  get_profile, profile, record_txn, set_avatar_url, set_batch, set_display_name, token, try_auth,
  username, verify_password, whether,
}

module _ {J : Type 0} (D : Sled J) (argon : Argon) (laws : IsSled D) where
  answer_ok :
      {A : Type 0} (f : A → Answer) (o : Outcome A) (s : SledStorage D) (db : MemStorage J)
      → Agrees D laws s db
      → Same D laws (continue o (λ a. pure (f a)) s) (continue o (λ a. pure (f a)) db)
  answer_ok f (ok a) s db h = (refl, h)
  answer_ok f (err e) s db h = (refl, h)
  answer_ok f panic s db h = (refl, h)
  answer_ok f running s db h = (refl, h)

  answer-Same :
      {A : Type 0} (f : A → Answer) (x : Outcome A × SledStorage D) (y : Outcome A × MemStorage J)
      → Same D laws x y
      → Same D laws (continue x.0 (λ a. pure (f a)) x.1) (continue y.0 (λ a. pure (f a)) y.1)
  answer-Same f (o, s) (o', db) (same, h) =
      subst (λ z. Same D laws (continue o (λ a. pure (f a)) s) (continue z (λ a. pure (f a)) db))
        same (answer_ok f o s db h)

  call_sled-Same :
      (c : Call) (s : SledStorage D) (db : MemStorage J)
      → IsFresh argon c db
      → Agrees D laws s db
      → Same D laws (call_sled D argon c s) (call_memory argon c db)
  unfolding call_sled call_memory
  call_sled-Same (create_user salt name password) s db f a =
      answer-Same done (Accounts.create_user D argon salt name password s)
        (Memory.create_user argon salt name password db)
        (Simulation.create_user-Same D laws argon salt name password s db a)
  call_sled-Same (verify_password name password) s db f a =
      answer-Same whether (Accounts.verify_password D argon name password s)
        (Memory.verify_password argon name password db, db)
        (Simulation.verify_password-Same D laws argon name password s db a)
  call_sled-Same (create_access_token t name device) s db f a =
      answer-Same token (Accounts.create_access_token D t name device s)
        (Memory.create_access_token t name device db)
        (Sessions.create_access_token-Same D laws t name device s db f a)
  call_sled-Same (delete_access_token t) s db f a =
      answer-Same done (Accounts.delete_access_token D t s) (Memory.delete_access_token t db)
        (Sessions.delete_access_token-Same D laws t s db a)
  call_sled-Same (delete_all_access_tokens t) s db f a =
      answer-Same done (Accounts.delete_all_access_tokens D t s)
        (Memory.delete_all_access_tokens t db)
        (Logout.delete_all_access_tokens-Same D laws t s db a)
  call_sled-Same (try_auth t) s db f a =
      answer-Same username (Accounts.try_auth D t s) (Memory.try_auth t db, db)
        (Simulation.try_auth-Same D laws t s db a)
  call_sled-Same (record_txn t id) s db f a =
      answer-Same whether (Accounts.record_txn D t id s) (Memory.record_txn t id db)
        (Sessions.record_txn-Same D laws t id s db a)
  call_sled-Same (get_profile name) s db f a =
      answer-Same profile (Accounts.get_profile D name s) (Memory.get_profile name db, db)
        (Simulation.get_profile-Same D laws name s db a)
  call_sled-Same (set_avatar_url name url) s db f a =
      answer-Same done (Accounts.set_avatar_url D name url s) (Memory.set_avatar_url name url db)
        (Profiles.set_avatar_url-Same D laws name url s db a)
  call_sled-Same (set_display_name name shown) s db f a =
      answer-Same done (Accounts.set_display_name D name shown s)
        (Memory.set_display_name name shown db)
        (Profiles.set_display_name-Same D laws name shown s db a)
  call_sled-Same (get_batch id) s db f a =
      answer-Same batch (Accounts.get_batch D id s) (Memory.get_batch id db, db)
        (Batches.get_batch-Same D laws id s db a)
  call_sled-Same (set_batch id b) s db f a =
      answer-Same done (Accounts.set_batch D id b s) (Memory.set_batch id b db)
        (Batches.set_batch-Same D laws id b s db a)

  answers_agree :
      (cs : List Call) (s : SledStorage D) (db : MemStorage J)
      → AreFresh argon cs db
      → Agrees D laws s db
      → answers_sled D argon cs s ≡ answers_memory argon cs db
  unfolding answers_sled answers_memory
  answers_agree [] s db f a = refl
  answers_agree (c ∷ cs) s db (f, fs) a =
      let (same, after) = call_sled-Same c s db f a in
      ap₂ ◌∷◌ same (answers_agree cs (call_sled D argon c s).1 (call_memory argon c db).1 fs after)

  no_token : (t : Uuid) → tokens_of (λ u. "") [] t ≡ none
  no_token t = rw (lookup-nil {V = String} t) refl

  new-Agrees : Agrees D laws (Database.new_storage D) Mem.new_storage
  new-Agrees = record {
    device = λ t. "";
    users_agree = new-Holds D.texts D.user_codec laws.texts_lem laws.users_lem;
    tokens_agree = λ t.
        new-Holds D.uuids D.token_codec laws.uuids_lem laws.tokens_lem t
        ∙ ap (written_as D.uuids D.token_codec laws.uuids_lem laws.tokens_lem) (sym (no_token t));
    tokens_nodup = tt;
    txns_agree = λ t id.
        rw
          (
            laws.texts_lem.entries_new,
            lookup-nil {V = D.Bytes} (Accounts.txn_name D t id),
            Memory.txns_of,
            Mem.new_storage,
            lookup-nil {V = HashSet String} t,
          )
          refl;
    batches_agree = λ id.
        new-Holds D.texts D.batch_codec laws.texts_lem laws.batches_lem id
        ∙ ap (written_as D.texts D.batch_codec laws.texts_lem laws.batches_lem)
            (sym (lookup-nil {V = Batch} id));
  }

  -- From an empty start, the two backends give the same answers to any sequence of calls about
  -- users, passwords, tokens, transactions, profiles and batches, if sled and bincode do what
  -- they promise, no call of them fails, and every new token is one that is not in use.
  pub answers_sled-answers_memory :
      (calls : List Call)
      → AreFresh {J = J} argon calls Mem.new_storage
      → answers_sled D argon calls (Database.new_storage D)
        ≡ answers_memory {J = J} argon calls Mem.new_storage
  answers_sled-answers_memory calls fresh =
      answers_agree calls (Database.new_storage D) Mem.new_storage fresh new-Agrees
