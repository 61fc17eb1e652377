-- ===== src/Storage/Sled/Tests.antt =====
-- storage/sled.rs: the theorems on the database at the stand-in, and runs of it.
use kerux.Prelude.{String, ◌≡◌, refl, true, false, none, some, List, [], ◌∷◌}
use kerux.Prelude.Equality.{string_eq, nat_eq}
use kerux.Prelude.Maps.{remove}
use kerux.Errors.{Outcome, ok}
use kerux.Storage.Mem as Mem
use kerux.Storage.Mem.Accounts as Memory
use kerux.Storage.Sled as Database
use kerux.Storage.Sled.Accounts
use kerux.Storage.Sled.Calls.{
  Call, create_user, create_access_token, try_auth, record_txn, set_display_name, get_profile,
  delete_all_access_tokens, Answer, done, whether, token, username, profile, call_memory,
  answers_memory, answers_sled, call_sled,
}
use kerux.Storage.Sled.Refinement.{answers_sled-answers_memory}
use kerux.Storage.Sled.Fixture.{crosses, stand_in, stand_in-IsSled}
use kerux.Fixtures.{runs, argon}

abbrev calls : List Call
calls =
    create_user 1 "bob" "pw"
    ∷ create_access_token 5 "bob" "dev"
    ∷ try_auth 5
    ∷ record_txn 5 "t"
    ∷ record_txn 5 "t"
    ∷ set_display_name "bob" "Bob"
    ∷ get_profile "bob"
    ∷ delete_all_access_tokens 5
    ∷ try_auth 5
    ∷ []

answers_sled-answers_memory_example :
    answers_sled stand_in argon calls (Database.new_storage stand_in)
    ≡ answers_memory {J = String} argon calls Mem.new_storage
unfolding runs call_memory Memory.create_user
answers_sled-answers_memory_example =
    answers_sled-answers_memory stand_in argon stand_in-IsSled calls
      (tt, (refl, (tt, (tt, (tt, (tt, (tt, (tt, (tt, tt)))))))))

abbrev answers : List (Outcome Answer)
answers =
    ok (done tt)
    ∷ ok (token 5)
    ∷ ok (username (some "bob"))
    ∷ ok (whether true)
    ∷ ok (whether false)
    ∷ ok (done tt)
    ∷ ok (profile (some (record { avatar_url = none; displayname = some "Bob" })))
    ∷ ok (done tt)
    ∷ ok (username none)
    ∷ []

answers_run : answers_sled stand_in argon calls (Database.new_storage stand_in) ≡ answers
unfolding runs answers_sled call_sled Accounts.create_user Accounts.create_access_token
    Accounts.try_auth Accounts.record_txn Accounts.set_display_name Accounts.get_profile
    Accounts.delete_all_access_tokens Database.try_insert_value Database.get_value crosses
    Database.overwrite_value remove
answers_run = refl
