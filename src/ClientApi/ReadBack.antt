-- ===== src/ClientApi/ReadBack.antt =====
-- client_api/room_events.rs: what `get_event` and `sync` show of a message that was sent.
mod Tests
use kerux.Prelude.{
  [], ◌∷◌, ◌++◌, String, ◌≡◌, refl, sym, ap, ◌∙◌, Bool, true, false, none, some, List,
}
use kerux.Prelude.{◌+◌, arith}
use kerux.Prelude.Equality.{◌==◌, string_eq, nat_eq, option_eq, ==_refl}
use kerux.Events.Room.{membership_eq}
use kerux.Prelude.Lists.{find-concat, is_empty, length, length-append}
use kerux.Prelude.Maps.{lookup}
use kerux.Prelude.Ints.{ℤ}
use kerux.Errors.{ok}
use kerux.Mxid.{MatrixId}
use kerux.Events.Content
use kerux.Events.Pdu.{StoredPdu, Event, to_client_format}
use kerux.Storage.Mem.{MemStorage, Room, Uuid, Instant}
use kerux.Storage.Mem.Accounts.{try_auth}
use kerux.Storage.Mem.Rooms.{get_pdu, id_of, push_event}
use kerux.Storage.Mem.Ephemeral.{Typing}
use kerux.Util.NewEvent.{NewEvent}
use kerux.Util.AddEvent.{Server}
use kerux.Util.AddEvent.Stored.{Added}
use kerux.ClientApi.{Context}
use kerux.ClientApi.RoomEvents.{send_event, get_event, message_event}
use kerux.ClientApi.Sync.{JoinedRoom, Progress, joined_of, sync_joined, from_of}
use kerux.ClientApi.Sync.Delivery.{sync_joined-Delivers}
use kerux.ClientApi.Access.{SignedIn, IsJoined}
use kerux.ClientApi.Sent.{carried, get_pdu-ready, ready-events, sent-Added}

module _ {J : Type 0} (cx : Context J) where
  -- An event that was added is found, if its identifier named none.
  get_pdu-Added :
      (room id : String) (event : NewEvent J) (before after : MemStorage J)
      (a : Added cx.serde cx.hashing cx.is_server_name cx.rounds room event id before after)
      → get_pdu cx.serde cx.hashing room id before ≡ ok none
      → get_pdu cx.serde cx.hashing room id after ≡ ok (some a.stored)
  unfolding get_pdu
  get_pdu-Added room id event before after a fresh =
      let was = a.was in
      let now = a.now in
      let named : (id_of cx.serde cx.hashing a.stored == id) ≡ true = rw (a.named) (==_refl id) in
      let p = λ (e : StoredPdu J). id_of cx.serde cx.hashing e == id in
      ground (arith, find-concat p a.old.events a.stored)

  -- A user in the room gets an event of the room by its identifier.
  shown_to :
      (token : Uuid) (user : MatrixId) (room id : String) (pdu : StoredPdu J) (s : Server J)
      → SignedIn cx token user s
      → IsJoined cx user room s
      → get_pdu cx.serde cx.hashing room id s.db ≡ ok (some pdu)
      → get_event cx token room id s ≡ (ok (to_client_format pdu.inner), s)
  unfolding get_event try_auth option_eq membership_eq to_client_format
  shown_to token user room id pdu s (name, known, made) joined found =
      rw (known, made, joined, found) refl

  -- What a client sends can be read: if `send_event` answers an identifier that named no event of
  -- the room, whoever is in the room afterwards gets by it an event with the content that was sent,
  -- from the user of the token that it was sent by, and without a state key; reading changes
  -- nothing.
  pub get_event-send_event :
      (now : ℤ) (clock : Instant) (token reader : Uuid) (user : MatrixId)
      (room kind txn_id id : String) (body : J) (s : Server J)
      → (send_event cx now clock token room kind txn_id body s).0 ≡ ok id
      → get_pdu cx.serde cx.hashing room id s.db ≡ ok none
      → SignedIn cx reader user (send_event cx now clock token room kind txn_id body s).1
      → IsJoined cx user room (send_event cx now clock token room kind txn_id body s).1
      → (author : MatrixId) × (e : Event J) × SignedIn cx token author s
        × (get_event cx reader room id (send_event cx now clock token room kind txn_id body s).1
            ≡ (ok e, (send_event cx now clock token room kind txn_id body s).1))
        × (Content.new cx.serde kind body ≡ ok e.event_content)
        × (e.sender ≡ author)
        × (e.state_key ≡ none)
  get_event-send_event now clock token reader user room kind txn_id id body s h fresh there joined =
      let (author, content, signed, read, a) =
        sent-Added cx now clock token room kind txn_id id body s h in
      let event = message_event cx author txn_id content in
      let (has, by, plain) = carried cx room event _ a.stored.inner a.carries in
      let still = get_pdu-ready cx clock token room txn_id id author s.db ∙ fresh in
      (
        author,
        to_client_format a.stored.inner,
        signed,
        shown_to reader user room id a.stored _ there joined
            (get_pdu-Added room id event _ _ a still),
        read ∙ ap ok (sym has),
        by,
        plain,
      )

  is_empty-concat : {A : Type 0} (xs : List A) (x : A) → is_empty (xs ++ (x ∷ [])) ≡ false
  is_empty-concat [] x = refl
  is_empty-concat (y ∷ xs) x = refl

  -- Whoever has seen a room up to the moment before a message was sent is shown just that message
  -- by the next request for news of the room that is answered: one event with the content that was
  -- sent, from the user of the token that it was sent by. The batch has then seen it.
  pub sync_joined-send_event :
      (to_value : Typing → J) (now : ℤ) (clock later : Instant) (token : Uuid)
      (room kind txn_id id : String) (body : J) (s : Server J) (old : Room J) (full : Bool)
      (p q : Progress J)
      → (send_event cx now clock token room kind txn_id body s).0 ≡ ok id
      → lookup room s.db.rooms ≡ some old
      → from_of room p.batch ≡ length old.events
      → sync_joined cx to_value later
          (send_event cx now clock token room kind txn_id body s).1.db
          full
          room
          p
        ≡ ok q
      → (author : MatrixId) × (e : Event J) × (j : JoinedRoom J) × SignedIn cx token author s
        × (lookup room (joined_of q.rooms) ≡ some j)
        × (j.timeline.events ≡ e ∷ [])
        × (Content.new cx.serde kind body ≡ ok e.event_content)
        × (e.sender ≡ author)
        × (from_of room q.batch ≡ length old.events + 1)
  sync_joined-send_event to_value now clock later token room kind txn_id id body s old full p q h
        found seen answered =
      let (author, content, signed, read, a) =
        sent-Added cx now clock token room kind txn_id id body s h in
      let event = message_event cx author txn_id content in
      let (has, by, _) = carried cx room event _ a.stored.inner a.carries in
      let same = ready-events cx clock token room txn_id author s.db old a.old found a.was in
      let (j, shown, timeline, batch) =
        sync_joined-Delivers cx to_value later _ full room (push_event a.stored a.old) old.events
          (a.stored ∷ []) p q a.now (ap (λ es. es ++ (a.stored ∷ [])) same)
          (is_empty-concat old.events a.stored) seen answered in
      (
        author,
        to_client_format a.stored.inner,
        j,
        signed,
        shown,
        timeline,
        read ∙ ap ok (sym has),
        by,
        batch ∙ length-append old.events (a.stored ∷ []),
      )
