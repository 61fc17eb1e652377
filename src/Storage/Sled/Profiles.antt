-- ===== src/Storage/Sled/Profiles.antt =====
-- storage/sled.rs and storage/mem.rs: changes of a user's profile, on a database and on the memory
-- that agree.
use kerux.Prelude.{String, ◌≡◌, refl, ap, ◌∙◌, none, some, List, inl, inr, arith}
use kerux.Prelude.Tests.{Option-cases}
use kerux.Prelude.Equality.{string_eq, nat_eq}
use kerux.Storage.Mem.{Uuid, MemStorage}
use kerux.Storage.Mem as Mem
use kerux.Storage.Mem.Accounts as Memory
use kerux.Storage.Mem.Accounts.Users as Users
use kerux.Storage.Mem.Accounts.{Argon}
use kerux.Storage.Sled.{User, Sled, SledStorage}
use kerux.Storage.Sled.Accounts
use kerux.Storage.Sled.Values.{update, insert-Holds}
use kerux.Storage.Sled.Values.{overwrite_value-eq, written_as}
use kerux.Storage.Sled.Agreement.{IsSled, Agrees, users_of, stored_user}
use kerux.Storage.Sled.Simulation as Simulation
use kerux.Storage.Sled.Simulation.{Same}

module _ {J : Type 0} (D : Sled J) (laws : IsSled D) where
  -- A change of a user that both make.
  changed :
      (f : User J → User J) (g : Mem.User J → Mem.User J) (name : String) (s : SledStorage D)
      (db : MemStorage J)
      → ((u : Mem.User J) → (g u).username ≡ u.username)
      → ((u : Mem.User J) → stored_user (g u) ≡ f (stored_user u))
      → Agrees D laws s db
      → Same D laws (Accounts.update_user D f name s) (Memory.change_user g name db)
  unfolding Memory.change_user
  changed f g name s db named stored a = elim (Option-cases (Memory.update_user g name db.users)) [
    | inl gone ↦
        let missing : Memory.find_user name db.users ≡ none =
          ground (arith, gone, Users.update_user_missing g name db.users) in
        rw (Simulation.read_user D laws name s db a, missing, Memory.change_user, gone) (refl, a)
    | inr (users, e) ↦ elim (Option-cases (Memory.find_user name db.users)) [
      | inl missing ↦ absurd (ground (arith, e, Users.update_user_missing g name db.users))
      | inr (u, there) ↦
          let written =
            overwrite_value-eq D.texts D.user_codec laws.texts_lem laws.users_lem name
              (f (stored_user u)) s.users (users_of db.users) a.users_agree in
          rw (Simulation.read_user D laws name s db a, there, written, Memory.change_user, e)
            (
              refl,
              Simulation.with_users D laws s db _ users a (λ j.
                  insert-Holds D.texts D.user_codec laws.texts_lem laws.users_lem name
                    (f (stored_user u)) s.users (users_of db.users) a.users_agree j
                  ∙ ap (written_as D.texts D.user_codec laws.texts_lem laws.users_lem)
                      (found users e u there j)),
            )
    ]
  ]
    where
      found :
          (users : List (Mem.User J))
          → Memory.update_user g name db.users ≡ some users
          → (u : Mem.User J) → Memory.find_user name db.users ≡ some u
          → (j : String)
          → update D.texts D.user_codec laws.texts_lem laws.users_lem name
              (some (f (stored_user u)))
              (users_of db.users)
              j
            ≡ users_of users j
      found users e u there j =
          rw (Users.find_user-update_user g j name db.users users named e)
            (ground (arith, there, stored u))

  pub set_avatar_url-Same :
      (name url : String) (s : SledStorage D) (db : MemStorage J)
      → Agrees D laws s db
      → Same D laws (Accounts.set_avatar_url D name url s) (Memory.set_avatar_url name url db)
  unfolding Accounts.set_avatar_url Memory.set_avatar_url
  set_avatar_url-Same name url s db a =
      changed (Accounts.with_avatar D url) (Memory.with_avatar url) name s db (λ u. refl)
        (λ u. refl) a

  pub set_display_name-Same :
      (name display_name : String) (s : SledStorage D) (db : MemStorage J)
      → Agrees D laws s db
      → Same D laws
          (Accounts.set_display_name D name display_name s)
          (Memory.set_display_name name display_name db)
  unfolding Accounts.set_display_name Memory.set_display_name
  set_display_name-Same name display_name s db a =
      changed (Accounts.with_name D display_name) (Memory.with_name display_name) name s db
        (λ u. refl) (λ u. refl) a
