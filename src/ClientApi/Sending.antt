-- ===== src/ClientApi/Sending.antt =====
-- client_api/room_events.rs: transactions, by which a client may send an event again.
use kerux.Prelude.{ℕ, String, ◌≡◌, refl, sym, ap, ◌∙◌, subst, Bool, true, false, Option}
use kerux.Prelude.{some, [], ◌∷◌, inl, inr, arith}
use kerux.Prelude.Tests.{Bool-cases}
use kerux.Prelude.Equality.{string_eq, nat_eq, ==_refl}
use kerux.Prelude.Lists.{contains}
use kerux.Prelude.Maps.{lookup}
use kerux.Prelude.Ints.{ℤ}
use kerux.Errors.{err, txn_id_exists, unknown_token}
use kerux.Exec.{Exec, Keeps, ok_or, continue_keeps, reads, pure, ◌>>=◌, ◌>>◌}
use kerux.Mxid.{MatrixId}
use kerux.Events.Content.{new}
use kerux.Events.Pdu.{VersionedPdu, StoredPdu, AuthStatus, event_id}
use kerux.Storage.Mem.{MemStorage, Uuid, Instant}
use kerux.Storage.Mem.Accounts.{record_txn, txns_of, try_auth}
use kerux.Storage.Mem.Accounts.Tokens.{contains-record_txn}
use kerux.Storage.Mem.Rooms.{add_pdus, add_pdu, is_create, get_prev_events}
use kerux.Storage.Mem.Ephemeral.{set_typing, change_room}
use kerux.Storage.Reader.{mem_reader}
use kerux.Util.NewEvent.{NewEvent, build_pdu}
use kerux.Util.AddEvent.{Server, add_event, add_checked, on_db, resolve, stored_as}
use kerux.ClientApi.{Context, own_id}
use kerux.ClientApi.Room.{add}
use kerux.ClientApi.RoomEvents.{send_event, fresh_only, message_event}
use kerux.Validate.Auth.{auth_check_v1}

module _ {J : Type 0} (token : Uuid) (name txn_id : String) where
  -- The token is known, and the transaction is recorded under it.
  record Recorded (s : Server J) : Type 0 where
    known : lookup token s.db.access_tokens ≡ some name
    recorded : contains (txns_of token s.db) txn_id ≡ true

  -- What changes the rooms alone keeps that.
  rooms-Recorded :
      (s t : Server J)
      → t.db.access_tokens ≡ s.db.access_tokens
      → t.db.txn_ids ≡ s.db.txn_ids
      → Recorded s
      → Recorded t
  rooms-Recorded s t tokens txns h = record {
    known = ap (lookup token) tokens ∙ h.known;
    recorded = ground arith;
  }

  add_pdu-rooms :
      (pdu : StoredPdu J) (db : MemStorage J)
      → ((add_pdus (pdu ∷ []) db).1.access_tokens ≡ db.access_tokens)
        × ((add_pdus (pdu ∷ []) db).1.txn_ids ≡ db.txn_ids)
  unfolding add_pdus add_pdu
  add_pdu-rooms pdu db = ground arith

  set_typing-rooms :
      (now : Instant) (room : String) (user : MatrixId) (is_typing : Bool) (timeout : ℕ)
      (db : MemStorage J)
      → ((set_typing now room user is_typing timeout db).1.access_tokens ≡ db.access_tokens)
        × ((set_typing now room user is_typing timeout db).1.txn_ids ≡ db.txn_ids)
  unfolding set_typing change_room
  set_typing-rooms now room user is_typing timeout db = ground arith

  module _ (cx : Context J) where
    stored_keeps :
        (pdu : VersionedPdu J) (s : Server J)
        → Recorded s
        → (status : AuthStatus)
        → Recorded
            ((on_db (
                  add_pdus
                    (stored_as cx.serde cx.hashing cx.is_server_name cx.rounds pdu status ∷ []))
                >> pure (event_id cx.serde cx.hashing pdu))
              s).1
    stored_keeps pdu s h status =
        let stored = stored_as cx.serde cx.hashing cx.is_server_name cx.rounds pdu status in
        let (tokens, txns) = add_pdu-rooms stored s.db in
        continue_keeps Recorded (add_pdus (stored ∷ []) s.db).0 _ _
          (rooms-Recorded s (on_db (add_pdus (stored ∷ [])) s).1 tokens txns h)
          (λ _. rooms-Recorded s (on_db (add_pdus (stored ∷ [])) s).1 tokens txns h)

    checked-Recorded :
        (now : ℤ) (room : String) (event : NewEvent J)
        → Keeps Recorded
            (add_checked cx.serde cx.hashing cx.is_server_name cx.rounds now room event)
    unfolding add_checked
    checked-Recorded now room event s h =
        continue_keeps Recorded (get_prev_events cx.serde cx.hashing room s.db) _ s h
          λ (prevs, depth).
            let resolved = resolve cx.serde cx.hashing cx.is_server_name cx.rounds room prevs s in
            continue_keeps Recorded resolved.0 _ resolved.1
              (rooms-Recorded s resolved.1 refl refl h)
              λ st.
                continue_keeps Recorded (build_pdu cx.hashing now room event prevs depth st) _
                  resolved.1 (rooms-Recorded s resolved.1 refl refl h)
                  λ pdu.
                    continue_keeps Recorded
                      (auth_check_v1 cx.is_server_name (mem_reader cx.serde cx.hashing s.db) pdu st)
                      _ resolved.1 (rooms-Recorded s resolved.1 refl refl h)
                      (stored_keeps pdu resolved.1 (rooms-Recorded s resolved.1 refl refl h))

    add-Recorded :
        (now : ℤ) (room : String) (event : NewEvent J) → Keeps Recorded (add cx now room event)
    unfolding add_event
    add-Recorded now room event s h = elim (Bool-cases (is_create event.event_content)) [
      | inl creates ↦ ground arith
      | inr other ↦ ground (arith, checked-Recorded now room event s h)
    ]

    recording :
        (s : Server J)
        → lookup token s.db.access_tokens ≡ some name
        → Recorded (on_db (record_txn token txn_id) s).1
    unfolding record_txn
    recording s known = record {
      known = known;
      recorded =
          (contains-record_txn token token txn_id txn_id s.db).1
          ∙ ground (arith, ==_refl token, ==_refl txn_id);
    }

    typing-Recorded :
        (clock : Instant) (room : String) (user : MatrixId)
        → Keeps Recorded (on_db (set_typing clock room user false 0))
    typing-Recorded clock room user s h =
        let (tokens, txns) = set_typing-rooms clock room user false 0 s.db in
        rooms-Recorded s (on_db (set_typing clock room user false 0) s).1 tokens txns h

    fresh_only-Recorded : (fresh : Bool) → Keeps Recorded (fresh_only cx fresh)
    fresh_only-Recorded true s h = h
    fresh_only-Recorded false s h = h

    past_known :
        {A : Type 0} (o : Option String) (f : String → Exec (Server J) A) (s : Server J)
        → o ≡ some name
        → Recorded (f name s).1
        → Recorded ((ok_or o unknown_token >>= f) s).1
    past_known o f s h k = subst (λ x. Recorded ((ok_or x unknown_token >>= f) s).1) (sym h) k

    -- What follows in `send_event`.
    abbrev rest_of : ℤ → Instant → String → String → J → String → Exec (Server J) String
    rest_of now clock room kind body username = do
      user_id ← own_id cx username
      content ← reads (λ _. new cx.serde kind body)
      on_db (set_typing clock room user_id false 0)
      add cx now room (message_event cx user_id txn_id content)

    rest_Recorded :
        (now : ℤ) (clock : Instant) (room kind : String) (body : J) (username : String)
        → Keeps Recorded (rest_of now clock room kind body username)
    rest_Recorded now clock room kind body username s h =
        continue_keeps Recorded (own_id cx username s).0 _ s h λ user_id.
          continue_keeps Recorded (new cx.serde kind body) _ s h λ content.
            let typed = typing-Recorded clock room user_id s h in
            continue_keeps Recorded (set_typing clock room user_id false 0 s.db).0 _
              (on_db (set_typing clock room user_id false 0) s).1 typed
              λ _. add-Recorded now room (message_event cx user_id txn_id content) _ typed

    sent-Recorded :
        (now : ℤ) (clock : Instant) (room kind : String) (body : J) (s : Server J)
        → lookup token s.db.access_tokens ≡ some name
        → Recorded (send_event cx now clock token room kind txn_id body s).1
    unfolding send_event try_auth
    sent-Recorded now clock room kind body s known =
        let first = (on_db (record_txn token txn_id) s).1 in
        let done = recording s known in
        past_known (lookup token s.db.access_tokens) _ s known (
          continue_keeps Recorded (record_txn token txn_id s.db).0 _ first done λ fresh.
            continue_keeps Recorded (fresh_only cx fresh first).0 _ (fresh_only cx fresh first).1
              (fresh_only-Recorded fresh first done)
              λ _.
                rest_Recorded now clock room kind body name (fresh_only cx fresh first).1
                  (fresh_only-Recorded fresh first done))

    refused :
        (now : ℤ) (clock : Instant) (room kind : String) (body : J) (s : Server J)
        → Recorded s
        → (send_event cx now clock token room kind txn_id body s).0 ≡ err txn_id_exists
    unfolding send_event try_auth record_txn
    refused now clock room kind body s h = let k = h.known in let t = h.recorded in ground arith

    -- What a client sends under a transaction is recorded, whatever becomes of the event: whoever
    -- sends anything by the same token and the same transaction afterwards gets the error
    -- `TxnIdExists`. The token has to be known.
    pub send_event_twice :
        (now now' : ℤ) (clock clock' : Instant) (room room' kind kind' : String) (body body' : J)
        (s : Server J)
        → lookup token s.db.access_tokens ≡ some name
        → (send_event cx now' clock' token room' kind' txn_id body'
            (send_event cx now clock token room kind txn_id body s).1).0
          ≡ err txn_id_exists
    send_event_twice now now' clock clock' room room' kind kind' body body' s known =
        refused now' clock' room' kind' body' _ (sent-Recorded now clock room kind body s known)
