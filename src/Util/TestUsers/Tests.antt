-- ===== src/Util/TestUsers/Tests.antt =====
-- util/storage.rs: the test users, where argon2 accepts a password for its own hash alone.
use kerux.Prelude.{String, ◌≡◌, refl, false, true, some}
use kerux.Prelude.Equality.{◌==◌, string_eq}
use kerux.Errors.{ok}
use kerux.Storage.Mem.{new_storage}
use kerux.Storage.Mem.Accounts.{Argon, create_user, verify_password}
use kerux.Util.TestUsers.{create_test_users, test_password}

-- A password is its own hash.
abbrev strict : Argon
strict = record {
  hash_encoded = λ password salt. ok password;
  verify_encoded = λ hash password. some (hash == password);
}

-- The password "password" is refused, and the text of the hash is accepted.
refused :
    let db = (create_test_users {J = String} strict 1 2 3 new_storage).1 in
    (verify_password strict "alice" "password" db ≡ ok false)
    × (verify_password strict "alice" test_password db ≡ ok true)
unfolding create_test_users create_user verify_password string_eq
refused = (refl, refl)
