-- ===== src/Util/TestUsers.antt =====
-- util/storage.rs: the users that `create_test_users` makes, in the in-memory storage.
mod Tests
use kerux.Prelude.{
  ℕ, String, ◌≡◌, refl, sym, ap, ◌∙◌, Bool, true, false, none, some, inl, inr, arith,
}
use kerux.Prelude.Tests.{is_some, if◌then◌else◌}
use kerux.Prelude.Equality.{◌==◌, string_eq}
use kerux.Errors.{Outcome, ok, err, username_taken}
use kerux.Exec.{Exec, continue, ◌>>◌}
use kerux.Storage.Mem.{MemStorage, new_storage}
use kerux.Storage.Mem.Accounts.{Argon, create_user, verify_password, find_user}
use kerux.Storage.Mem.Accounts.Users.{accepts, verify_password-create_user}

-- The text that all three get: a hash, of the password "password".
abbrev pub test_password : String
test_password =
    "$argon2i$v=19$m=4096,t=3,p=1$c2FsdHNhbHQ$llvUdqp69y2RB629dCuG42kR5y+Occ/ziKV5kn3rSOM"

module _ {J : Type 0} (argon : Argon) where
  -- The salts are what each call draws.
  unfoldable pub create_test_users : ℕ → ℕ → ℕ → Exec (MemStorage J) (Unit {0})
  create_test_users salt_a salt_b salt_c =
      create_user argon salt_a "alice" test_password
      >> create_user argon salt_b "bob" test_password
      >> create_user argon salt_c "carol" test_password

verified :
    (argon : Argon) (h guess : String)
    → elim (argon.verify_encoded h guess) [ none ↦ ok false | some right ↦ ok right ]
      ≡ ok (accepts argon h guess)
verified argon h guess = ground arith

-- On a new storage where every hashing succeeds, the call succeeds, and then exactly those
-- passwords verify for the three users that argon2 accepts for the hash of the text above: the
-- text is hashed as a password, and not taken for the hash that it is.
pub verify_password-create_test_users :
    (K : Type 0) (argon : Argon) (salt_a salt_b salt_c : ℕ) (a b c guess : String)
    → argon.hash_encoded test_password salt_a ≡ ok a
    → argon.hash_encoded test_password salt_b ≡ ok b
    → argon.hash_encoded test_password salt_c ≡ ok c
    → let made = create_test_users {J = K} argon salt_a salt_b salt_c new_storage in
      (made.0 ≡ ok tt)
      × (verify_password argon "alice" guess made.1 ≡ ok (accepts argon a guess))
      × (verify_password argon "bob" guess made.1 ≡ ok (accepts argon b guess))
      × (verify_password argon "carol" guess made.1 ≡ ok (accepts argon c guess))
unfolding create_test_users verify_password create_user string_eq
verify_password-create_test_users K argon salt_a salt_b salt_c a b c guess ea eb ec =
    rw (ea, eb, ec) (refl, verified argon a guess, verified argon b guess, verified argon c guess)
