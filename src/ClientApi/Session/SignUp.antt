-- ===== src/ClientApi/Session/SignUp.antt =====
-- client_api/auth.rs: a login after a registration.
use kerux.Prelude.{ℕ, String, ◌≡◌, refl, ap, ◌∙◌, subst, true, false, none, some}
use kerux.Prelude.{inl, inr, arith}
use kerux.Prelude.Tests.{if◌then◌else◌, Option-cases}
use kerux.Prelude.Equality.{string_eq, nat_eq, ==_refl}
use kerux.Errors.{Outcome, ok, err, forbidden}
use kerux.Exec.{continue_ok}
use kerux.Mxid.{MatrixId, MxidError, Checked, valid, invalid, new, localpart}
use kerux.Mxid.Roundtrip.{localpart-new}
use kerux.Events.Room.{unwrap_or}
use kerux.Storage.Mem.{Uuid, User, MemStorage}
use kerux.Storage.Mem.Accounts.{find_user, fresh_user, create_user, insert_user}
use kerux.Storage.Mem.Accounts.{verify_password, create_access_token}
use kerux.Storage.Mem.Accounts.Users.{accepts, find_user-add_user}
use kerux.Util.AddEvent.{Server, on_db}
use kerux.ClientApi.{Context}
use kerux.ClientApi.Session.{login, login_name, LoginRequest, LoginResponse}
use kerux.ClientApi.Session.{register, RegisterRequest, RegisterResponse, check_kind}
use kerux.ClientApi.Session.{new_or_bad_json, registered_login}

module _ {J : Type 0} (cx : Context J) where
  abbrev pub logged_in : Uuid → String → LoginRequest → MatrixId → LoginResponse
  logged_in token device req user = record {
    user_id = user;
    access_token = token;
    device_id = unwrap_or req.device_id device;
    home_server = cx.domain;
  }

  -- The answer to a login of a user who is there.
  login_known :
      (token : Uuid) (device : String) (req : LoginRequest) (name guess : String) (user : MatrixId)
      (u : User J) (s : Server J)
      → login_name cx req.identifier ≡ ok name
      → req.password ≡ some guess
      → find_user name s.db.users ≡ some u
      → new cx.is_server_name name cx.domain ≡ valid user
      → (login cx token device req s).0 ≡ (
          if accepts cx.argon u.password_hash guess
          then ok (logged_in token device req user)
          else err forbidden)
  unfolding login verify_password create_access_token
  login_known token device req name guess user u s named given found made =
      elim (Option-cases (cx.argon.verify_encoded u.password_hash guess)) [
        | inl failed ↦ ground arith
        | inr (true, right) ↦
            let yes : accepts cx.argon u.password_hash guess ≡ true = rw (accepts, right) refl in
            rw (named, given, found, right, found, made, yes) refl
        | inr (false, wrong) ↦ ground arith
      ]

  created :
      (salt : ℕ) (name password : String) (db : MemStorage J)
      → (create_user cx.argon salt name password db).0 ≡ ok tt
      → (h : String) × (cx.argon.hash_encoded password salt ≡ ok h)
        × (find_user name db.users ≡ none)
        × (find_user name (create_user cx.argon salt name password db).1.users
            ≡ some (fresh_user name h))
  unfolding create_user insert_user
  created salt name password db e =
      let (h, hashed, h1, e1) = continue_ok (cx.argon.hash_encoded password salt) _ db e in
      elim (Option-cases (find_user name db.users)) [
        | inr (u, taken) ↦ absurd (ground arith)
        | inl free ↦
            (h, hashed, free, ground (arith, find_user-add_user name name h db.users, ==_refl name))
      ]

  registered_login-users :
      (token : Uuid) (device : String) (req : RegisterRequest) (user : MatrixId) (s : Server J)
      → (registered_login cx token device req user s).1.db.users ≡ s.db.users
  unfolding create_access_token
  registered_login-users token device req user s = ground arith

  from_new :
      (show : MxidError → String) (m : Checked MatrixId) (user : MatrixId)
      → new_or_bad_json cx show m ≡ ok user
      → m ≡ valid user
  from_new show (valid m) user h = ground arith
  from_new show (invalid e) user h = cc

  -- A registration that is answered took a name that was free, and hashed the password. Who names
  -- that user in a login afterwards gets in exactly with a password that argon2 accepts for that
  -- hash: then the answer has the user's identifier and the new token, and otherwise the login is
  -- forbidden.
  pub login-register :
      (show : MxidError → String) (salt : ℕ) (token token' : Uuid)
      (device device' query guess : String) (req : RegisterRequest) (req' : LoginRequest)
      (resp : RegisterResponse) (s : Server J)
      → (register cx show salt token device query req s).0 ≡ ok resp
      → login_name cx req'.identifier ≡ ok req.username
      → req'.password ≡ some guess
      → (user : MatrixId) × (h : String) × (new cx.is_server_name req.username cx.domain
          ≡ valid user)
        × (find_user req.username s.db.users ≡ none)
        × (cx.argon.hash_encoded req.password salt ≡ ok h)
        × ((login cx token' device' req' (register cx show salt token device query req s).1).0 ≡ (
            if accepts cx.argon h guess
            then ok (logged_in token' device' req' user)
            else err forbidden))
  unfolding register
  login-register show salt token token' device device' query guess req req' resp s h0 named given =
      let (_, _, h1, e1) = continue_ok (check_kind query) _ s h0 in
      let (user, made, h2, e2) =
        continue_ok (new_or_bad_json cx show (new cx.is_server_name req.username cx.domain)) _ s
          h1 in
      let is_new = from_new show (new cx.is_server_name req.username cx.domain) user made in
      let same = localpart-new cx.is_server_name req.username cx.domain user is_new in
      let create = on_db (create_user cx.argon salt (localpart user) req.password) in
      let (_, put, h3, e3) = continue_ok (create s).0 _ (create s).1 h2 in
      let (h, hashed, free, found) = created salt (localpart user) req.password s.db put in
      let users = registered_login-users token device req user (create s).1 in
      let whole = e1 ∙ e2 ∙ e3 in
      let there : find_user req.username (register cx show salt token device query req s).1.db.users
          ≡ some (fresh_user req.username h) =
        ap (λ (x : Outcome RegisterResponse × Server J). find_user req.username x.1.db.users) whole
        ∙ ap (find_user req.username) users
        ∙ subst (λ n. find_user n (create s).1.db.users ≡ some (fresh_user n h)) same found in
      (
        user,
        h,
        is_new,
        subst (λ n. find_user n s.db.users ≡ none) same free,
        hashed,
        login_known token' device' req' req.username guess user (fresh_user req.username h) _ named
            given there is_new,
      )
