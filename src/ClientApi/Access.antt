-- ===== src/ClientApi/Access.antt =====
-- client_api/: who gets an answer, and to whose data.
use kerux.Prelude.{String, ◌≡◌, refl, sym, ap, ◌∙◌, subst, Bool, true, false, Option, none}
use kerux.Prelude.{some, inl, inr, arith}
use kerux.Prelude.Tests.{if◌then◌else◌, Bool-cases}
use kerux.Prelude.Equality.{◌==◌, ==-eq, option_eq, string_eq, nat_eq}
use kerux.Prelude.Maps.{lookup}
use kerux.Errors.{Outcome, ok, unknown_token, forbidden, not_found, ErrorKind}
use kerux.Errors.{ok-injective}
use kerux.Exec.{Exec, continue_ok, ok_or, pure, raise, ◌>>=◌}
use kerux.Mxid.{MatrixId, Checked, valid, invalid, new}
use kerux.Events.Room.{Membership, membership_eq}
use kerux.Events.Pdu.{StoredPdu, Event, to_client_format}
use kerux.Storage.Mem.{Uuid}
use kerux.Storage.Mem.Accounts.{try_auth}
use kerux.Storage.Mem.Rooms.{get_pdu}
use kerux.Storage.Reader
use kerux.Storage.Reader.{mem_reader}
use kerux.Util.AddEvent.{Server}
use kerux.ClientApi.{Context, signed_in, own_id, valid_or_panic}
use kerux.ClientApi.RoomEvents.{get_event}
use kerux.ClientApi.RoomEvents.{joined_only}

module _ {J : Type 0} (cx : Context J) where
  -- The token is known, and its user has an identifier on this server.
  abbrev pub SignedIn : Uuid → MatrixId → Server J → Type 0
  SignedIn token user s =
      (username : String) × (lookup token s.db.access_tokens ≡ some username)
      × (new cx.is_server_name username cx.domain ≡ valid user)

  -- The user is in the room, by the membership that the storage has.
  abbrev pub IsJoined : MatrixId → String → Server J → Type 0
  IsJoined user room s =
      Reader.get_membership (mem_reader cx.serde cx.hashing s.db) user room
      ≡ ok (some Membership.join)

  -- What `unwrap` gave was valid.
  pub made_valid :
      (m : Checked MatrixId) (user : MatrixId) → valid_or_panic m ≡ ok user → m ≡ valid user
  made_valid (valid m) user h = ground arith
  made_valid (invalid e) user h = cc

  past_if :
      {A : Type 0} (b : Bool) (f : Unit {0} → Exec (Server J) A) (s : Server J) (e : ErrorKind)
      {a : A}
      → b ≡ true
      → (((if b then pure tt else raise e) >>= f) s).0 ≡ ok a
      → ((f tt s).0 ≡ ok a) × (((if b then pure tt else raise e) >>= f) s ≡ f tt s)
  past_if true f s e _ h = (h, refl)
  past_if false f s e b h = cc

  -- A handler that answers has got past a token that is known.
  pub past_token :
      {A : Type 0} (found : Option String) (f : String → Exec (Server J) A) (s : Server J) {a : A}
      → ((ok_or found unknown_token >>= f) s).0 ≡ ok a
      → (name : String) × (found ≡ some name)
        × ((f name s).0 ≡ ok a)
        × ((ok_or found unknown_token >>= f) s ≡ f name s)
  past_token none f s h = cc
  past_token (some name) f s h = (name, refl, h, refl)

  pub joined_past :
      {A : Type 0} (m : Option Membership) (f : Unit {0} → Exec (Server J) A) (s : Server J) {a : A}
      → ((joined_only cx m >>= f) s).0 ≡ ok a
      → (m ≡ some Membership.join) × ((f tt s).0 ≡ ok a) × ((joined_only cx m >>= f) s ≡ f tt s)
  joined_past m f s h = elim (Bool-cases (m == some Membership.join)) [
    | inl e ↦
        let (rest, whole) = past_if (m == some Membership.join) f s forbidden e h in
        (==-eq m (some Membership.join) e, rest, whole)
    | inr e ↦ absurd (ground arith)
  ]

  signed_in-SignedIn :
      (token : Uuid) (user : MatrixId) (s : Server J)
      → (signed_in cx token s).0 ≡ ok user
      → SignedIn token user s × (signed_in cx token s ≡ (ok user, s))
  unfolding try_auth
  signed_in-SignedIn token user s h =
      let (name, known, h1, e1) = past_token (lookup token s.db.access_tokens) (own_id cx) s h in
      (
        (name, known, made_valid (new cx.is_server_name name cx.domain) user h1),
        e1 ∙ ap (λ (x : Outcome MatrixId). (x, s)) h1,
      )

  -- A handler that answers has got past the check of the token, which changes nothing.
  pub after_signed_in :
      {A : Type 0} (f : MatrixId → Exec (Server J) A) (token : Uuid) (s : Server J) {a : A}
      → ((signed_in cx token >>= f) s).0 ≡ ok a
      → (user : MatrixId) × SignedIn token user s
        × ((f user s).0 ≡ ok a)
        × ((signed_in cx token >>= f) s ≡ f user s)
  after_signed_in f token s {a = a} h =
      let (user, h0, h1, e1) = continue_ok (signed_in cx token s).0 f (signed_in cx token s).1 h in
      let (there, same) = signed_in-SignedIn token user s h0 in
      let kept = ap (λ (x : Outcome MatrixId × Server J). x.1) same in
      (user, there, subst (λ x. (f user x).0 ≡ ok a) kept h1, e1 ∙ ap (f user) kept)

  shown :
      (found : Option (StoredPdu J)) (e : Event J) (s : Server J)
      → ((ok_or found not_found >>= λ pdu. pure (to_client_format pdu.inner)) s).0 ≡ ok e
      → (pdu : StoredPdu J) × (found ≡ some pdu)
        × (e ≡ to_client_format pdu.inner)
        × (((ok_or found not_found >>= λ pdu. pure (to_client_format pdu.inner)) s).1 ≡ s)
  shown none e s h = cc
  shown (some pdu) e s h = (pdu, refl, sym (ok-injective _ e h), refl)

  -- An event is shown only to a user who is in its room, by a token that the server knows; it is
  -- the room's event of that identifier, and nothing changes.
  pub get_event-IsJoined :
      (token : Uuid) (room id : String) (e : Event J) (s : Server J)
      → (get_event cx token room id s).0 ≡ ok e
      → (user : MatrixId) × (pdu : StoredPdu J) × SignedIn token user s
        × IsJoined user room s
        × (get_pdu cx.serde cx.hashing room id s.db ≡ ok (some pdu))
        × (e ≡ to_client_format pdu.inner)
        × ((get_event cx token room id s).1 ≡ s)
  unfolding get_event
  get_event-IsJoined token room id e s h =
      let (user, there, h1, e1) = after_signed_in _ token s h in
      let (m, has, h2, e2) =
        continue_ok (Reader.get_membership (mem_reader cx.serde cx.hashing s.db) user room) _ s
          h1 in
      let (joined, h3, e3) = joined_past m _ s h2 in
      let (found, got, h4, e4) = continue_ok (get_pdu cx.serde cx.hashing room id s.db) _ s h3 in
      let (pdu, is, equal, kept) = shown found e s h4 in
      (
        user,
        pdu,
        there,
        has ∙ ap ok joined,
        got ∙ ap ok is,
        equal,
        ap (λ x. x.1) (e1 ∙ e2 ∙ e3 ∙ e4) ∙ kept,
      )
