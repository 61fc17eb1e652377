-- ===== src/Storage/Mem/Accounts/Users.antt =====
-- storage/mem.rs: users, their passwords and profiles.
use kerux.Prelude.{ℕ, String, ◌≡◌, refl, Bool, false, none, some, inl, inr}
use kerux.Prelude.{List, [], ◌∷◌, arith}
use kerux.Prelude.Tests.{if◌then◌else◌, is_some, map_option, Bool-cases, Option-cases}
use kerux.Prelude.Equality.{◌==◌, string_eq}
use kerux.Errors.{Outcome, ok, err, username_taken, user_not_found}
use kerux.Exec.{continue}
use kerux.Storage.Mem.{User, MemStorage}
use kerux.Storage.Mem.Accounts.{
  Argon, fresh_user, find_user, create_user, insert_user, verify_password,
}
use kerux.Storage.Mem.Accounts.{get_profile, update_user, change_user, set_avatar_url}
use kerux.Storage.Mem.Accounts.{set_display_name, with_avatar, with_name, add_user}

-- Whether argon2 accepts a password for a hash; an error counts as a refusal.
abbrev pub accepts : Argon → String → String → Bool
accepts argon hash guess = elim (argon.verify_encoded hash guess) [ none ↦ false | some r ↦ r ]

module _ {J : Type 0} where
  -- No two users share a name.
  abbrev pub UniqueNames : List (User J) → Type 0
  UniqueNames [] = Unit
  UniqueNames (u ∷ users) = (find_user u.username users ≡ none) × UniqueNames users

  -- A user is found after a sign-up if it was there before, or if it is the new one.
  pub find_user-add_user :
      (j username password_hash : String) (users : List (User J))
      → find_user j (add_user username password_hash users) ≡ (
          if is_some (find_user j users)
          then find_user j users
          else if username == j
          then some (fresh_user username password_hash)
          else none)
  find_user-add_user j username password_hash [] = ground arith
  find_user-add_user j username password_hash (u ∷ users) =
      ground (arith, find_user-add_user j username password_hash users)

  UniqueNames-add_user :
      (username password_hash : String) (users : List (User J))
      → find_user username users ≡ none
      → UniqueNames users
      → UniqueNames (add_user username password_hash users)
  UniqueNames-add_user username password_hash [] fresh u = (refl, tt)
  UniqueNames-add_user username password_hash (v ∷ users) fresh (first, rest) = ground (
    arith,
    find_user-add_user v.username username password_hash users,
    UniqueNames-add_user username password_hash users,
  )

  UniqueNames-insert_user :
      (r : Outcome String) (username : String) (db : MemStorage J)
      → UniqueNames db.users
      → UniqueNames (continue r (insert_user username) db).1.users
  unfolding insert_user
  UniqueNames-insert_user (ok h) username db u =
      ground (arith, UniqueNames-add_user username h db.users)
  UniqueNames-insert_user (err e) username db u = u
  UniqueNames-insert_user Outcome.panic username db u = u
  UniqueNames-insert_user Outcome.running username db u = u

  -- Signing up keeps user names unique, whatever the hashing does.
  pub create_user-UniqueNames :
      (argon : Argon) (salt : ℕ) (username password : String) (db : MemStorage J)
      → UniqueNames db.users
      → UniqueNames (create_user argon salt username password db).1.users
  unfolding create_user
  create_user-UniqueNames argon salt username password db u =
      UniqueNames-insert_user (argon.hash_encoded password salt) username db u

  -- A name that is taken is refused and nothing changes. A new name is added, and a password then
  -- verifies for it exactly as argon2 accepts it for the hash that was made. A password of any
  -- other user verifies as before.
  pub verify_password-create_user :
      (argon : Argon) (salt : ℕ) (username password h j guess : String) (db : MemStorage J)
      → argon.hash_encoded password salt ≡ ok h
      → ((create_user argon salt username password db).0
          ≡ (if is_some (find_user username db.users) then err username_taken else ok tt))
        × (verify_password argon j guess (create_user argon salt username password db).1 ≡ (
            if is_some (find_user username db.users)
            then verify_password argon j guess db
            else if username == j
            then ok (accepts argon h guess)
            else verify_password argon j guess db))
  unfolding create_user verify_password
  verify_password-create_user argon salt username password h j guess db e =
      rw e (elim (Option-cases (find_user username db.users)) [
        | inl fresh ↦ rw fresh (refl, verifies fresh)
        | inr (v, taken) ↦ rw taken (refl, refl)
      ])
    where
      verifies :
          find_user username db.users ≡ none
          → verify_password argon j guess (record db { users = add_user username h db.users }) ≡ (
              if username == j
              then ok (accepts argon h guess)
              else verify_password argon j guess db)
      verifies fresh = ground (arith, find_user-add_user j username h db.users)

  pub find_user-update_user :
      (change : User J → User J) (j username : String) (users users' : List (User J))
      → ((u : User J) → (change u).username ≡ u.username)
      → update_user change username users ≡ some users'
      → find_user j users'
        ≡ (if username == j then map_option change (find_user j users) else find_user j users)
  unfolding update_user
  find_user-update_user change j username [] users' k h = cc
  find_user-update_user change j username (u ∷ users) users' k h =
      elim (Bool-cases (u.username == username)) [
        | inl same ↦ ground (arith, k u)
        | inr other ↦ elim (Option-cases (update_user change username users)) [
          | inl gone ↦ absurd (ground arith)
          | inr (w, e) ↦ ground (arith, find_user-update_user change j username users w k e)
        ]
      ]

  pub update_user_missing :
      (change : User J → User J) (username : String) (users : List (User J))
      → is_some (update_user change username users) ≡ is_some (find_user username users)
  unfolding update_user
  update_user_missing change username [] = refl
  update_user_missing change username (u ∷ users) =
      ground (arith, update_user_missing change username users)

  pub change_user-profile :
      (change : User J → User J) (j username : String) (db : MemStorage J)
      → ((u : User J) → (change u).username ≡ u.username)
      → ((change_user change username db).0
          ≡ (if is_some (find_user username db.users) then ok tt else err user_not_found))
        × (find_user j (change_user change username db).1.users ≡ (
            if username == j
            then map_option change (find_user j db.users)
            else find_user j db.users))
  unfolding change_user
  change_user-profile change j username db k =
      elim (Option-cases (update_user change username db.users)) [
        | inl gone ↦ ground (arith, update_user_missing change username db.users, user_missing gone)
        | inr (w, e) ↦ ground (
          arith,
          update_user_missing change username db.users,
          find_user-update_user change j username db.users w k e,
        )
      ]
    where
      user_missing :
          update_user change username db.users ≡ none → find_user username db.users ≡ none
      user_missing gone = ground (arith, update_user_missing change username db.users)

  get_profile-eq :
      (j : String) (db : MemStorage J)
      → get_profile j db ≡ ok (map_option (λ (u : User J). u.profile) (find_user j db.users))
  unfolding get_profile
  get_profile-eq j db = ground arith

  -- Setting the avatar fails exactly for an unknown user. Otherwise it sets that user's avatar,
  -- and leaves the display name and every other profile alone.
  pub get_profile-set_avatar_url :
      (j username url : String) (db : MemStorage J)
      → ((set_avatar_url username url db).0
          ≡ (if is_some (find_user username db.users) then ok tt else err user_not_found))
        × (get_profile j (set_avatar_url username url db).1
            ≡ ok (
                map_option
                  (λ (u : User J).
                    if username == j then record u.profile { avatar_url = some url } else u.profile)
                  (find_user j db.users)))
  unfolding set_avatar_url
  get_profile-set_avatar_url j username url db =
      let (done, found) = change_user-profile (with_avatar url) j username db (λ u. refl) in
      (done, rw (get_profile-eq, found) (ground arith))

  -- Setting the display name likewise.
  pub get_profile-set_display_name :
      (j username display_name : String) (db : MemStorage J)
      → ((set_display_name username display_name db).0
          ≡ (if is_some (find_user username db.users) then ok tt else err user_not_found))
        × (get_profile j (set_display_name username display_name db).1
            ≡ ok (
                map_option
                  (λ (u : User J).
                    if username == j
                    then record u.profile { displayname = some display_name }
                    else u.profile)
                  (find_user j db.users)))
  unfolding set_display_name
  get_profile-set_display_name j username display_name db =
      let (done, found) = change_user-profile (with_name display_name) j username db (λ u. refl) in
      (done, rw (get_profile-eq, found) (ground arith))
