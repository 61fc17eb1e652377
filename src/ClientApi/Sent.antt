-- ===== src/ClientApi/Sent.antt =====
-- client_api/room_events.rs: `send_event`, as the event that it adds.
use kerux.Prelude.{subst, String, ◌≡◌, refl, sym, ◌∙◌, Bool, true, false, some, List}
use kerux.Prelude.{◌+◌, inl, inr, arith}
use kerux.Prelude.Tests.{Option-cases}
use kerux.Prelude.Equality.{string_eq, nat_eq, option_eq}
use kerux.Events.Room.{membership_eq}
use kerux.Prelude.Maps.{lookup, lookup-insert_self}
use kerux.Prelude.Ints.{ℤ}
use kerux.Errors.{Outcome, ok}
use kerux.Exec.{Exec, continue_ok, ◌>>=◌}
use kerux.Mxid.{MatrixId, new}
use kerux.Events.Content
use kerux.Events.Content.{EventContent}
use kerux.Events.Pdu.{VersionedPdu, to_client_format, v4}
use kerux.Storage.Mem.{MemStorage, Room, Uuid, Instant}
use kerux.Storage.Mem.Accounts.{record_txn, try_auth}
use kerux.Storage.Mem.Rooms.{get_pdu}
use kerux.Storage.Mem.Ephemeral.{set_typing, change_room, put_typing}
use kerux.Util.NewEvent.{NewEvent}
use kerux.Util.AddEvent.{Server, on_db}
use kerux.Util.AddEvent.Stored.{Added, Carries, add_event-Added}
use kerux.ClientApi.{Context, own_id}
use kerux.ClientApi.RoomEvents.{send_event, fresh_only, message_event}
use kerux.ClientApi.Access.{SignedIn, made_valid, past_token}

module _ {J : Type 0} (cx : Context J) where
  past_fresh :
      {A : Type 0} (fresh : Bool) (f : Unit {0} → Exec (Server J) A) (s : Server J) {a : A}
      → ((fresh_only cx fresh >>= f) s).0 ≡ ok a
      → ((f tt s).0 ≡ ok a) × ((fresh_only cx fresh >>= f) s ≡ f tt s)
  past_fresh true f s h = (h, refl)
  past_fresh false f s h = cc

  -- A typing notification changes no event.
  get_pdu-set_typing :
      (clock : Instant) (room id : String) (user : MatrixId) (db : MemStorage J)
      → get_pdu cx.serde cx.hashing room id (set_typing clock room user false 0 db).1
        ≡ get_pdu cx.serde cx.hashing room id db
  unfolding get_pdu set_typing change_room
  get_pdu-set_typing clock room id user db = elim (Option-cases (lookup room db.rooms)) [
    | inl missing ↦ ground arith
    | inr (old, found) ↦
        let changed = record (put_typing clock user false 0 old) {
          notify_send = old.notify_send + 1;
        } in
        ground (arith, lookup-insert_self room changed db.rooms)
  ]

  get_pdu-record_txn :
      (token : Uuid) (txn_id room id : String) (db : MemStorage J)
      → get_pdu cx.serde cx.hashing room id (record_txn token txn_id db).1
        ≡ get_pdu cx.serde cx.hashing room id db
  unfolding get_pdu record_txn
  get_pdu-record_txn token txn_id room id db = refl

  -- What a client is shown of an event that a PDU carries.
  pub carried :
      (room : String) (event : NewEvent J) (prevs : List String) (pdu : VersionedPdu J)
      → Carries cx.hashing room event prevs pdu
      → ((to_client_format pdu).event_content ≡ event.event_content)
        × ((to_client_format pdu).sender ≡ event.sender)
        × ((to_client_format pdu).state_key ≡ event.state_key)
  unfolding to_client_format
  carried room event prevs (v4 p) (_, content, user, key, _) = (content, user, key)

  -- The storage when the event is added: the transaction is recorded, and the author is not typing.
  abbrev pub ready : Instant → Uuid → String → String → MatrixId → MemStorage J → MemStorage J
  ready clock token room txn_id author db =
      (set_typing clock room author false 0 (record_txn token txn_id db).1).1

  pub get_pdu-ready :
      (clock : Instant) (token : Uuid) (room txn_id id : String) (author : MatrixId)
      (db : MemStorage J)
      → get_pdu cx.serde cx.hashing room id (ready clock token room txn_id author db)
        ≡ get_pdu cx.serde cx.hashing room id db
  get_pdu-ready clock token room txn_id id author db =
      get_pdu-set_typing clock room id author (record_txn token txn_id db).1
      ∙ get_pdu-record_txn token txn_id room id db

  pub ready-events :
      (clock : Instant) (token : Uuid) (room txn_id : String) (author : MatrixId)
      (db : MemStorage J) (old r : Room J)
      → lookup room db.rooms ≡ some old
      → lookup room (ready clock token room txn_id author db).rooms ≡ some r
      → r.events ≡ old.events
  unfolding set_typing change_room record_txn
  ready-events clock token room txn_id author db old r found now =
      let changed = record (put_typing clock author false 0 old) {
        notify_send = old.notify_send + 1;
      } in
      ground (arith, lookup-insert_self room changed db.rooms)

  -- A message that was sent is an event of its author that was added, with the content sent.
  pub sent-Added :
      (now : ℤ) (clock : Instant) (token : Uuid) (room kind txn_id id : String) (body : J)
      (s : Server J)
      → (send_event cx now clock token room kind txn_id body s).0 ≡ ok id
      → (author : MatrixId) × (content : EventContent J) × SignedIn cx token author s
        × (Content.new cx.serde kind body ≡ ok content)
        × Added cx.serde cx.hashing cx.is_server_name cx.rounds room
            (message_event cx author txn_id content)
            id
            (ready clock token room txn_id author s.db)
            (send_event cx now clock token room kind txn_id body s).1.db
  unfolding send_event try_auth
  sent-Added now clock token room kind txn_id id body s h =
      let (name, known, h1, e1) = past_token cx (lookup token s.db.access_tokens) _ s h in
      let (is_new, _, h2, e2) = continue_ok (record_txn token txn_id s.db).0 _ _ h1 in
      let recorded = (on_db (record_txn token txn_id) s).1 in
      let (h3, e3) = past_fresh is_new _ recorded h2 in
      let (author, made, h4, e4) = continue_ok (own_id cx name recorded).0 _ recorded h3 in
      let (content, read, h5, e5) = continue_ok (Content.new cx.serde kind body) _ recorded h4 in
      let typed = (on_db (set_typing clock room author false 0) recorded).1 in
      let (_, _, h6, e6) =
        continue_ok (set_typing clock room author false 0 recorded.db).0 _ typed h5 in
      let event = message_event cx author txn_id content in
      let added =
        add_event-Added cx.serde cx.hashing cx.is_server_name cx.rounds now room event typed id
          h6 in
      (
        author,
        content,
        (name, known, made_valid cx (new cx.is_server_name name cx.domain) author made),
        read,
        subst
            (λ (x : Outcome String × Server J).
              Added cx.serde cx.hashing cx.is_server_name cx.rounds room event id typed.db x.1.db)
            (sym (e1 ∙ e2 ∙ e3 ∙ e4 ∙ e5 ∙ e6)) added,
      )
