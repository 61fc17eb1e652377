-- ===== src/Util/AddEvent/Stored.antt =====
-- util/storage.rs: what `add_event` leaves in the storage.
use kerux.Prelude.{ℕ, String, ◌≡◌, refl, sym, ap, ◌∙◌, subst, Bool, false, some}
use kerux.Prelude.{List, [], ◌∷◌, map, inl, inr, arith}
use kerux.Prelude.Tests.{Bool-cases, Option-cases}
use kerux.Prelude.Equality.{string_eq}
use kerux.Prelude.Lists.{keep}
use kerux.Prelude.Maps.{lookup, lookup-insert_self}
use kerux.Prelude.Ints.{ℤ}
use kerux.Errors.{ok, >>=-eq-ok, ok-injective}
use kerux.Exec.{continue_ok}
use kerux.Events.Content.{Serde}
use kerux.Events.Pdu.{VersionedPdu, StoredPdu, AuthStatus, Hashing, event_content}
use kerux.Events.Pdu.{state_key, sender, room_id, prev_events, finalize, event_id}
use kerux.Mxid.{domain}
use kerux.Storage.Mem.{MemStorage, Room}
use kerux.Storage.Mem.Rooms.{add_pdu, add_pdus, get_prev_events, is_create, id_of}
use kerux.Storage.Mem.Rooms.{push_event}
use kerux.Storage.Mem.Rooms.Heads.{is_head, get_prev_events-heads}
use kerux.State.{State, expect}
use kerux.Util.NewEvent.{NewEvent, build_pdu, calc_auth_events}
use kerux.Util.AddEvent.{Server, add_event, add_checked, stored_as, resolve}
use kerux.Validate.Auth.{auth_check_v1}

module _ {J : Type 0} (H : Hashing J) where
  -- The PDU carries the event, for its room, behind the heads.
  abbrev pub Carries : String → NewEvent J → List String → VersionedPdu J → Type 0
  Carries room event prevs pdu =
      (room_id pdu ≡ room)
      × (event_content pdu ≡ event.event_content)
      × (sender pdu ≡ event.sender)
      × (state_key pdu ≡ event.state_key)
      × (prev_events pdu ≡ prevs)

  build_pdu-Carries :
      (now : ℤ) (room : String) (event : NewEvent J) (prevs : List String) (depth : ℤ) (st : State)
      (pdu : VersionedPdu J)
      → build_pdu H now room event prevs depth st ≡ ok pdu
      → Carries room event prevs pdu
  unfolding build_pdu finalize
  build_pdu-Carries now room event prevs depth st pdu h =
      let (auth_events, _, h1) = >>=-eq-ok (calc_auth_events event st) _ h in
      let (origin, _, h2) = >>=-eq-ok (expect (domain event.sender)) _ h1 in ground arith

module _ {J : Type 0} where
  add_pdus_ok :
      (stored : StoredPdu J) (db : MemStorage J)
      → is_create (event_content stored.inner) ≡ false
      → (add_pdus (stored ∷ []) db).0 ≡ ok tt
      → (old : Room J) × (lookup (room_id stored.inner) db.rooms ≡ some old)
        × (lookup (room_id stored.inner) (add_pdus (stored ∷ []) db).1.rooms
            ≡ some (push_event stored old))
  unfolding add_pdus add_pdu
  add_pdus_ok stored db other h = elim (Option-cases (lookup (room_id stored.inner) db.rooms)) [
    | inl missing ↦ absurd (ground arith)
    | inr (old, found) ↦ (
      old,
      found,
      ground (arith, lookup-insert_self (room_id stored.inner) (push_event stored old) db.rooms),
    )
  ]

module _ {J : Type 0} (S : Serde J) (H : Hashing J) (is_server_name : String → Bool)
    (rounds : ℕ) where
  -- What is in the room after an event was added.
  pub record Added (room : String) (event : NewEvent J) (id : String) (before after : MemStorage J)
      : Type 0 where
    pub old : Room J
    pub stored : StoredPdu J
    pub was : lookup room before.rooms ≡ some old
    pub now : lookup room after.rooms ≡ some (push_event stored old)
    pub named : id_of S H stored ≡ id
    pub carries :
        Carries H room event
          (map (id_of S H) (keep (is_head S H old.events) old.events))
          stored.inner

  heads_of :
      (room : String) (db : MemStorage J) (prevs : List String) (depth : ℤ) (old : Room J)
      → get_prev_events S H room db ≡ ok (prevs, depth)
      → lookup room db.rooms ≡ some old
      → prevs ≡ map (id_of S H) (keep (is_head S H old.events) old.events)
  heads_of room db prevs depth old h found = ground (arith, (get_prev_events-heads S H room db).0)

  Added-at :
      (room : String) (event : NewEvent J) (prevs : List String) (depth : ℤ) (pdu : VersionedPdu J)
      (status : AuthStatus) (db : MemStorage J)
      → is_create event.event_content ≡ false
      → get_prev_events S H room db ≡ ok (prevs, depth)
      → Carries H room event prevs pdu
      → (add_pdus (stored_as S H is_server_name rounds pdu status ∷ []) db).0 ≡ ok tt
      → Added room event
          (event_id S H pdu)
          db
          (add_pdus (stored_as S H is_server_name rounds pdu status ∷ []) db).1
  Added-at room event prevs depth pdu status db other got (in_room, content, user, key, behind) h =
      let stored = stored_as S H is_server_name rounds pdu status in
      let (old, was, now) = add_pdus_ok stored db (ground arith) h in
      let found = subst (λ x. lookup x db.rooms ≡ some old) in_room was in
      record {
        old = old;
        stored = stored;
        was = found;
        now =
            subst (λ x. lookup x (add_pdus (stored ∷ []) db).1.rooms ≡ some (push_event stored old))
              in_room now;
        named = refl;
        carries =
            (in_room, content, user, key, behind ∙ heads_of room db prevs depth old got found);
      }

  add_checked-Added :
      (now : ℤ) (room : String) (event : NewEvent J) (s : Server J) (id : String)
      → is_create event.event_content ≡ false
      → (add_checked S H is_server_name rounds now room event s).0 ≡ ok id
      → Added room event id s.db (add_checked S H is_server_name rounds now room event s).1.db
  unfolding add_checked
  add_checked-Added now room event s id other h =
      let ((prevs, depth), got, h1, e1) = continue_ok (get_prev_events S H room s.db) _ s h in
      let (st, _, h2, e2) = continue_ok (resolve S H is_server_name rounds room prevs s).0 _ _ h1 in
      let (pdu, built, h3, e3) = continue_ok (build_pdu H now room event prevs depth st) _ _ h2 in
      let (status, _, h4, e4) = continue_ok (auth_check_v1 is_server_name _ pdu st) _ _ h3 in
      let (_, put, h5, e5) =
        continue_ok (add_pdus (stored_as S H is_server_name rounds pdu status ∷ []) s.db).0 _ _
          h4 in
      let there =
        Added-at room event prevs depth pdu status s.db other got
          (build_pdu-Carries H now room event prevs depth st pdu built) put in
      subst
        (λ x. Added room event x s.db (add_checked S H is_server_name rounds now room event s).1.db)
        (ok-injective (event_id S H pdu) id h5)
        (subst (λ x. Added room event (event_id S H pdu) s.db x.1.db) (sym (e1 ∙ e2 ∙ e3 ∙ e4 ∙ e5))
          there)

  checked :
      (now : ℤ) (room : String) (event : NewEvent J) (s : Server J)
      → is_create event.event_content ≡ false
      → add_event S H is_server_name rounds now room event s
        ≡ add_checked S H is_server_name rounds now room event s
  unfolding add_event
  checked now room event s other = ground arith

  -- An event that is added is the last of its room, as the client sent it, with the identifier that
  -- the call returns; its predecessors are the heads that the room had.
  pub add_event-Added :
      (now : ℤ) (room : String) (event : NewEvent J) (s : Server J) (id : String)
      → (add_event S H is_server_name rounds now room event s).0 ≡ ok id
      → Added room event id s.db (add_event S H is_server_name rounds now room event s).1.db
  unfolding add_event
  add_event-Added now room event s id h = elim (Bool-cases (is_create event.event_content)) [
    | inl creates ↦ absurd (ground arith)
    | inr other ↦
        let same = checked now room event s other in
        subst (λ x. Added room event id s.db x.1.db) (sym same)
          (add_checked-Added now room event s id other (sym (ap (λ x. x.0) same) ∙ h))
  ]
