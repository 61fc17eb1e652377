-- ===== src/Storage/Sled/Batches.antt =====
-- storage/sled.rs and storage/mem.rs: batches, on a database and on the memory that agree.
use kerux.Prelude.{String, refl, sym, ap, ◌∙◌}
use kerux.Prelude.Equality.{string_eq, nat_eq}
use kerux.Prelude.Maps.{lookup, lookup-insert}
use kerux.Storage.Query.{Batch}
use kerux.Storage.Mem.{MemStorage}
use kerux.Storage.Mem.Accounts as Memory
use kerux.Storage.Mem.Accounts.{Argon}
use kerux.Storage.Sled.{Sled, SledStorage}
use kerux.Storage.Sled.Accounts
use kerux.Storage.Sled.Values.{get_value-Holds, insert-Holds}
use kerux.Storage.Sled.Values.{overwrite_value-eq, written_as}
use kerux.Storage.Sled.Agreement.{IsSled, Agrees}
use kerux.Storage.Sled.Simulation.{Same}

module _ {J : Type 0} (D : Sled J) (laws : IsSled D) where
  pub get_batch-Same :
      (id : String) (s : SledStorage D) (db : MemStorage J)
      → Agrees D laws s db
      → Same D laws (Accounts.get_batch D id s) (Memory.get_batch id db, db)
  unfolding Accounts.get_batch Memory.get_batch
  get_batch-Same id s db a = (
    get_value-Holds D.texts D.batch_codec laws.texts_lem laws.batches_lem id s.batches
        (λ i. lookup i db.batches) a.batches_agree,
    a,
  )

  pub set_batch-Same :
      (id : String) (batch : Batch) (s : SledStorage D) (db : MemStorage J)
      → Agrees D laws s db
      → Same D laws (Accounts.set_batch D id batch s) (Memory.set_batch id batch db)
  unfolding Accounts.set_batch Memory.set_batch
  set_batch-Same id batch s db a =
      rw
        (overwrite_value-eq D.texts D.batch_codec laws.texts_lem laws.batches_lem id batch s.batches
          (λ i. lookup i db.batches) a.batches_agree)
        (
          refl,
          record {
            device = a.device;
            users_agree = a.users_agree;
            tokens_agree = a.tokens_agree;
            tokens_nodup = a.tokens_nodup;
            txns_agree = a.txns_agree;
            batches_agree = λ j.
                insert-Holds D.texts D.batch_codec laws.texts_lem laws.batches_lem id batch
                  s.batches (λ i. lookup i db.batches) a.batches_agree j
                ∙ ap (written_as D.texts D.batch_codec laws.texts_lem laws.batches_lem)
                    (sym (lookup-insert j id batch db.batches));
          },
        )
