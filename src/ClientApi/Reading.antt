-- ===== src/ClientApi/Reading.antt =====
-- client_api/room_events.rs: the handlers that show a room's events and state, as one operation,
-- and to whom they answer.
use kerux.Prelude.{String, ◌≡◌, refl, sym, ap, ◌∙◌, Option, none, some, List, [], ◌∷◌}
use kerux.Prelude.Lists.{keep}
use kerux.Errors.{ok, ok-injective, not_found}
use kerux.Exec.{Exec, continue_ok, pure, ok_or, ◌>>=◌}
use kerux.Mxid.{MatrixId}
use kerux.Events.Room.{Membership}
use kerux.Events.Pdu.{StoredPdu, Event, to_client_format}
use kerux.Storage.Mem.{Uuid}
use kerux.Storage.Mem.Rooms.{get_pdu}
use kerux.Storage.Reader
use kerux.Storage.Reader.{Reader, mem_reader}
use kerux.Util.AddEvent.{Server}
use kerux.ClientApi.{Context}
use kerux.ClientApi.RoomEvents.{MembersRequest, is_wanted, joined_now}
use kerux.ClientApi.RoomEvents.{get_event, get_state_event_inner, get_state, get_members}
use kerux.ClientApi.Access.{SignedIn, IsJoined, after_signed_in, joined_past, get_event-IsJoined}

-- What is read of a room.
pub data Reading : Type 0 where
  event : String → Reading
  state_event : String → String → Reading
  state : Reading
  members : MembersRequest → Reading

module _ {J : Type 0} (cx : Context J) where
  -- The handler that is asked for it; a single event comes as a list of one.
  unfoldable pub read : Reading → Uuid → String → Exec (Server J) (List (Event J))
  read (event id) token room = do e ← get_event cx token room id; pure (e ∷ [])
  read (state_event kind key) token room = do
    e ← get_state_event_inner cx token room kind key
    pure (e ∷ [])
  read state token room = get_state cx token room
  read (members req) token room = get_members cx token room req

  abbrev reader_of : Server J → Reader J
  reader_of s = mem_reader cx.serde cx.hashing s.db

  -- The events are what the storage has of the room.
  abbrev pub AreOf : Reading → String → Server J → List (Event J) → Type 0
  AreOf (event id) room s es =
      (pdu : StoredPdu J) × (get_pdu cx.serde cx.hashing room id s.db ≡ ok (some pdu))
      × (es ≡ to_client_format pdu.inner ∷ [])
  AreOf (state_event kind key) room s es =
      (e : Event J) × (Reader.get_state_event (reader_of s) room kind key ≡ ok (some e))
      × (es ≡ e ∷ [])
  AreOf state room s es = Reader.get_full_state (reader_of s) room ≡ ok es
  AreOf (members req) room s es =
      (all : List (Event J)) × (Reader.get_full_state (reader_of s) room ≡ ok all)
      × (es ≡ keep (is_wanted req) all)

  now_past :
      {A : Type 0} (m : Option Membership) (f : Unit {0} → Exec (Server J) A) (s : Server J) {a : A}
      → ((joined_now cx m >>= f) s).0 ≡ ok a
      → (m ≡ some Membership.join) × ((f tt s).0 ≡ ok a) × ((joined_now cx m >>= f) s ≡ f tt s)
  now_past none f s h = cc
  now_past (some Membership.join) f s h = (refl, h, refl)
  now_past (some Membership.invite) f s h = cc
  now_past (some Membership.knock) f s h = cc
  now_past (some Membership.leave) f s h = cc
  now_past (some Membership.ban) f s h = cc

  given :
      {A : Type 0} (found : Option A) (s : Server J) {a : A}
      → (ok_or found not_found s).0 ≡ ok a
      → (found ≡ some a) × ((ok_or found not_found s).1 ≡ s)
  given none s h = cc
  given (some b) s h = (ap some (ok-injective b _ h), refl)

  get_state-IsJoined :
      (token : Uuid) (room : String) (es : List (Event J)) (s : Server J)
      → (get_state cx token room s).0 ≡ ok es
      → (user : MatrixId) × SignedIn cx token user s
        × IsJoined cx user room s
        × (Reader.get_full_state (reader_of s) room ≡ ok es)
        × ((get_state cx token room s).1 ≡ s)
  unfolding get_state
  get_state-IsJoined token room es s h =
      let (user, there, h1, e1) = after_signed_in cx _ token s h in
      let (m, has, h2, e2) = continue_ok (Reader.get_membership (reader_of s) user room) _ s h1 in
      let (joined, h3, e3) = now_past m _ s h2 in
      (user, there, has ∙ ap ok joined, h3, ap (λ x. x.1) (e1 ∙ e2 ∙ e3))

  get_members-IsJoined :
      (token : Uuid) (room : String) (req : MembersRequest) (es : List (Event J)) (s : Server J)
      → (get_members cx token room req s).0 ≡ ok es
      → (user : MatrixId) × SignedIn cx token user s
        × IsJoined cx user room s
        × AreOf (members req) room s es
        × ((get_members cx token room req s).1 ≡ s)
  unfolding get_members
  get_members-IsJoined token room req es s h =
      let (user, there, h1, e1) = after_signed_in cx _ token s h in
      let (m, has, h2, e2) = continue_ok (Reader.get_membership (reader_of s) user room) _ s h1 in
      let (joined, h3, e3) = now_past m _ s h2 in
      let (all, got, h4, e4) = continue_ok (Reader.get_full_state (reader_of s) room) _ s h3 in
      (
        user,
        there,
        has ∙ ap ok joined,
        (all, got, sym (ok-injective _ es h4)),
        ap (λ x. x.1) (e1 ∙ e2 ∙ e3 ∙ e4),
      )

  get_state_event_inner-IsJoined :
      (token : Uuid) (room kind key : String) (e : Event J) (s : Server J)
      → (get_state_event_inner cx token room kind key s).0 ≡ ok e
      → (user : MatrixId) × SignedIn cx token user s
        × IsJoined cx user room s
        × (Reader.get_state_event (reader_of s) room kind key ≡ ok (some e))
        × ((get_state_event_inner cx token room kind key s).1 ≡ s)
  unfolding get_state_event_inner
  get_state_event_inner-IsJoined token room kind key e s h =
      let (user, there, h1, e1) = after_signed_in cx _ token s h in
      let (m, has, h2, e2) = continue_ok (Reader.get_membership (reader_of s) user room) _ s h1 in
      let (joined, h3, e3) = joined_past cx m _ s h2 in
      let (found, got, h4, e4) =
        continue_ok (Reader.get_state_event (reader_of s) room kind key) _ s h3 in
      let (is, kept) = given found s h4 in
      (user, there, has ∙ ap ok joined, got ∙ ap ok is, ap (λ x. x.1) (e1 ∙ e2 ∙ e3 ∙ e4) ∙ kept)

  -- A room's events, its state and its members are shown only to a user who is in the room, by a
  -- token that the server knows. What is shown is what the storage has: the event of that
  -- identifier, the state event of that type and key, the whole state, or of it the members that
  -- the request's filters let through. Nothing changes.
  pub read-IsJoined :
      (what : Reading) (token : Uuid) (room : String) (es : List (Event J)) (s : Server J)
      → (read what token room s).0 ≡ ok es
      → (user : MatrixId) × SignedIn cx token user s
        × IsJoined cx user room s
        × AreOf what room s es
        × ((read what token room s).1 ≡ s)
  unfolding read
  read-IsJoined (event id) token room es s h =
      let (e, h0, h1, e1) = continue_ok (get_event cx token room id s).0 _ _ h in
      let (user, pdu, there, joined, got, is, kept) = get_event-IsJoined cx token room id e s h0 in
      (
        user,
        there,
        joined,
        (pdu, got, sym (ok-injective _ es h1) ∙ ap (λ x. x ∷ []) is),
        ap (λ x. x.1) e1 ∙ kept,
      )
  read-IsJoined (state_event kind key) token room es s h =
      let (e, h0, h1, e1) = continue_ok (get_state_event_inner cx token room kind key s).0 _ _ h in
      let (user, there, joined, got, kept) =
        get_state_event_inner-IsJoined token room kind key e s h0 in
      (user, there, joined, (e, got, sym (ok-injective _ es h1)), ap (λ x. x.1) e1 ∙ kept)
  read-IsJoined state token room es s h = get_state-IsJoined token room es s h
  read-IsJoined (members req) token room es s h = get_members-IsJoined token room req es s h
