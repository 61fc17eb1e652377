-- ===== src/ClientApi/Session/Login.antt =====
-- client_api/auth.rs: what a login needs, and what it leaves behind.
use kerux.Prelude.{String, ◌≡◌, refl, sym, ap, ◌∙◌, subst, Bool, true, false, Option, none, some}
use kerux.Prelude.{inl, inr, arith}
use kerux.Prelude.Tests.{Option-cases}
use kerux.Prelude.Equality.{nat_eq}
use kerux.Prelude.Maps.{lookup-insert_self}
use kerux.Errors.{Outcome, ok, ok-injective, unimplemented}
use kerux.Exec.{Exec, continue_ok, ok_or, ◌>>=◌}
use kerux.Mxid.{new}
use kerux.Events.Room.{unwrap_or}
use kerux.Storage.Mem.{Uuid, MemStorage}
use kerux.Storage.Mem.Accounts.{verify_password, create_access_token, try_auth, find_user}
use kerux.Util.AddEvent.{Server}
use kerux.ClientApi.{Context, valid_or_panic}
use kerux.ClientApi.Session.{login, login_name, LoginRequest, LoginResponse, allowed}

module _ {J : Type 0} (cx : Context J) where
  past_given :
      {A : Type 0} (o : Option String) (f : String → Exec (Server J) A) (s : Server J) {a : A}
      → ((ok_or o unimplemented >>= f) s).0 ≡ ok a
      → (p : String) × (o ≡ some p) × ((f p s).0 ≡ ok a) × ((ok_or o unimplemented >>= f) s ≡ f p s)
  past_given none f s h = cc
  past_given (some p) f s h = (p, refl, h, refl)

  past_allowed :
      {A : Type 0} (b : Bool) (f : Unit {0} → Exec (Server J) A) (s : Server J) {a : A}
      → ((allowed cx b >>= f) s).0 ≡ ok a
      → (b ≡ true) × ((f tt s).0 ≡ ok a) × ((allowed cx b >>= f) s ≡ f tt s)
  past_allowed true f s h = (refl, h, refl)
  past_allowed false f s h = cc

  token_made :
      (token made : Uuid) (name device : String) (db : MemStorage J)
      → (create_access_token token name device db).0 ≡ ok made
      → (made ≡ token)
        × (try_auth token (create_access_token token name device db).1 ≡ ok (some name))
  unfolding create_access_token try_auth
  token_made token made name device db h = elim (Option-cases (find_user name db.users)) [
    | inl missing ↦ absurd (ground arith)
    | inr (u, e) ↦ ground (arith, lookup-insert_self token name db.access_tokens)
  ]

  -- A login that succeeds named a user by a supported identifier, and gave a password that verifies
  -- for that user; the token that it answers is new, and authenticates as that user from then on.
  pub login-try_auth :
      (token : Uuid) (device : String) (req : LoginRequest) (resp : LoginResponse) (s : Server J)
      → (login cx token device req s).0 ≡ ok resp
      → (name password : String) × (login_name cx req.identifier ≡ ok name)
        × (req.password ≡ some password)
        × (verify_password cx.argon name password s.db ≡ ok true)
        × (resp.access_token ≡ token)
        × (try_auth token (login cx token device req s).1.db ≡ ok (some name))
  unfolding login
  login-try_auth token device req resp s h =
      let (name, named, h1, e1) = continue_ok (login_name cx req.identifier) _ s h in
      let (password, has, h2, e2) = past_given req.password _ s h1 in
      let (right, verified, h3, e3) =
        continue_ok (verify_password cx.argon name password s.db) _ s h2 in
      let (right_is, h4, e4) = past_allowed right _ s h3 in
      let device_id = unwrap_or req.device_id device in
      let (made, created, h5, e5) =
        continue_ok (create_access_token token name device_id s.db).0 _ _ h4 in
      let (user_id, own, h6, e6) =
        continue_ok (valid_or_panic (new cx.is_server_name name cx.domain)) _ _ h5 in
      let (is, signed) = token_made token made name device_id s.db created in
      let whole = e1 ∙ e2 ∙ e3 ∙ e4 ∙ e5 ∙ e6 in
      (
        name,
        password,
        named,
        has,
        verified ∙ ap ok right_is,
        sym (ap (λ (x : LoginResponse). x.access_token) (ok-injective _ resp h6)) ∙ is,
        subst (λ (x : Outcome LoginResponse × Server J). try_auth token x.1.db ≡ ok (some name))
            (sym whole) signed,
      )
