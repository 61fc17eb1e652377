-- ===== src/Storage/Mem/Rooms/Append.antt =====
-- storage/mem.rs: what `add_pdus` does to the rooms.
use kerux.Prelude.{String, ◌≡◌, refl, sym, ap, ◌∙◌, true, false, ◌&&◌, Option, none, some}
use kerux.Prelude.{List, [], ◌∷◌, ◌++◌, arith, inl, inr}
use kerux.Prelude.Tests.{if◌then◌else◌, is_some, map_option, Bool-cases, Option-cases}
use kerux.Prelude.Equality.{◌==◌, string_eq, ==-eq}
use kerux.Prelude.Lists.{All, find-concat}
use kerux.Prelude.Maps.{lookup, insert, lookup-insert}
use kerux.Errors.{ok, err, room_not_found}
use kerux.Exec.{continue_keeps}
use kerux.Events.Content.{Serde}
use kerux.Events.Pdu.{StoredPdu, Hashing, event_content, room_id}
use kerux.Storage.Mem.{Room, MemStorage, new_room, new_storage}
use kerux.Storage.Mem.Rooms.{is_create, push_event, add_pdu, add_pdus, id_of, get_pdu}

module _ {J : Type 0} where
  -- The first event is a create event; so there is one.
  abbrev pub Started : List (StoredPdu J) → Type 0
  Started [] = ⊥
  Started (e ∷ events) = is_create (event_content e.inner) ≡ true

  -- A room's history starts with a create event, and holds events of that room only.
  pub record IsHistory (id : String) (events : List (StoredPdu J)) : Type 0 where
    pub started : Started events
    pub owned : All (λ (e : StoredPdu J). room_id e.inner ≡ id) events

  pub record RoomsOk (db : MemStorage J) : Type 0 where
    pub at_room :
        (id : String) (room : Room J) → lookup id db.rooms ≡ some room → IsHistory id room.events

  All-concat :
      (id : String) (events : List (StoredPdu J)) (pdu : StoredPdu J)
      → All (λ (e : StoredPdu J). room_id e.inner ≡ id) events
      → room_id pdu.inner ≡ id
      → All (λ (e : StoredPdu J). room_id e.inner ≡ id) (events ++ (pdu ∷ []))
  All-concat id [] pdu h k = (k, tt)
  All-concat id (e ∷ events) pdu (first, rest) k = (first, All-concat id events pdu rest k)

  IsHistory-concat :
      (id : String) (events : List (StoredPdu J)) (pdu : StoredPdu J)
      → IsHistory id events
      → room_id pdu.inner ≡ id
      → IsHistory id (events ++ (pdu ∷ []))
  IsHistory-concat id [] pdu h k = elim h.started [ ]
  IsHistory-concat id (e ∷ events) pdu h k = record {
    started = h.started;
    owned = All-concat id (e ∷ events) pdu h.owned k;
  }

  abbrev events_of : Option (Room J) → List (StoredPdu J)
  events_of none = []
  events_of (some r) = r.events

  -- What is at each room's key after one round of the loop.
  pub lookup-add_pdu :
      (pdu : StoredPdu J) (id : String) (db : MemStorage J)
      → lookup id (add_pdu pdu db).1.rooms ≡ (
          if id == room_id pdu.inner
          then if is_create (event_content pdu.inner)
            then some (push_event pdu new_room)
            else map_option (push_event pdu) (lookup id db.rooms)
          else lookup id db.rooms)
  unfolding add_pdu
  lookup-add_pdu pdu id db = elim (Bool-cases (is_create (event_content pdu.inner))) [
    | inl creates ↦
        let key = room_id pdu.inner in
        let rooms = insert key new_room db.rooms in
        ground (
          arith,
          lookup-insert id key new_room db.rooms,
          lookup-insert key key new_room db.rooms,
          lookup-insert id key (push_event pdu new_room) rooms,
        )
    | inr plain ↦ elim (Option-cases (lookup (room_id pdu.inner) db.rooms)) [
      | inl missing ↦ ground arith
      | inr (room, e) ↦
          ground (arith, lookup-insert id (room_id pdu.inner) (push_event pdu room) db.rooms)
    ]
  ]

  IsHistory-of_option :
      (id : String) (pdu : StoredPdu J) (old : Option (Room J)) (room : Room J)
      → room_id pdu.inner ≡ id
      → map_option (push_event pdu) old ≡ some room
      → ((r : Room J) → old ≡ some r → IsHistory id r.events)
      → IsHistory id room.events
  IsHistory-of_option id pdu none room k e h = absurd (ground arith)
  IsHistory-of_option id pdu (some r) room k e h =
      let same : r.events ++ (pdu ∷ []) ≡ room.events =
        ap (λ (o : Option (Room J)). events_of o) e in
      rw (← same) (IsHistory-concat id r.events pdu (h r refl) k)

  added-IsHistory :
      (pdu : StoredPdu J) (id : String) (db : MemStorage J) (room : Room J)
      → RoomsOk db
      → (if id == room_id pdu.inner
          then if is_create (event_content pdu.inner)
            then some (push_event pdu new_room)
            else map_option (push_event pdu) (lookup id db.rooms)
          else lookup id db.rooms)
        ≡ some room
      → IsHistory id room.events
  added-IsHistory pdu id db room v e = elim (Bool-cases (id == room_id pdu.inner)) [
    | inr other ↦ v.at_room id room (ground arith)
    | inl same ↦ elim (Bool-cases (is_create (event_content pdu.inner))) [
      | inl creates ↦
          let one : pdu ∷ [] ≡ room.events =
            ap (λ (o : Option (Room J)). events_of o) (rw (same, creates) at e) in
          let owner : room_id pdu.inner ≡ id = sym (==-eq id (room_id pdu.inner) same) in
          rw (← one) (record { started = creates; owned = (owner, tt) })
      | inr plain ↦
          IsHistory-of_option id pdu (lookup id db.rooms) room
            (sym (==-eq id (room_id pdu.inner) same)) (rw (same, plain) at e) (v.at_room id)
    ]
  ]

  -- Adding one event, whether it succeeds or not, keeps every room's history well formed.
  add_pdu-RoomsOk :
      (pdu : StoredPdu J) (db : MemStorage J) → RoomsOk db → RoomsOk (add_pdu pdu db).1
  unfolding add_pdu
  add_pdu-RoomsOk pdu db v = record {
    at_room = λ id room e. added-IsHistory pdu id db room v (sym (lookup-add_pdu pdu id db) ∙ e);
  }

  -- Starting from an empty storage, and through any calls of `add_pdus`, failed ones included,
  -- every room has a create event first and holds no event of another room.
  pub add_pdus-RoomsOk :
      (pdus : List (StoredPdu J)) (db : MemStorage J) → RoomsOk db → RoomsOk (add_pdus pdus db).1
  unfolding add_pdus
  add_pdus-RoomsOk [] db v = v
  add_pdus-RoomsOk (pdu ∷ pdus) db v =
      continue_keeps RoomsOk (add_pdu pdu db).0 (λ _. add_pdus pdus) (add_pdu pdu db).1
        (add_pdu-RoomsOk pdu db v)
        (λ _. add_pdus-RoomsOk pdus (add_pdu pdu db).1 (add_pdu-RoomsOk pdu db v))

  pub new_storage-RoomsOk : RoomsOk new_storage
  unfolding lookup
  new_storage-RoomsOk = record { at_room = λ id room h. absurd (ground arith) }

  -- Adding an event other than a create event sends no notification: no room's count of messages
  -- changes, so a query that waits for that room's events is not woken by it.
  pub notify_send-add_pdu :
      (pdu : StoredPdu J) (id : String) (db : MemStorage J)
      → is_create (event_content pdu.inner) ≡ false
      → map_option (λ (r : Room J). r.notify_send) (lookup id (add_pdu pdu db).1.rooms)
        ≡ map_option (λ (r : Room J). r.notify_send) (lookup id db.rooms)
  notify_send-add_pdu pdu id db plain = ground (arith, lookup-add_pdu pdu id db)

module _ {J : Type 0} (S : Serde J) (H : Hashing J) where
  -- Adding an event other than a create event fails exactly if its room does not exist, and then
  -- changes nothing. Otherwise the event is found by its identifier, unless an older event of the
  -- room has that identifier, and every other event is found as before.
  get_pdu-add_pdu :
      (pdu : StoredPdu J) (id event : String) (db : MemStorage J)
      → is_create (event_content pdu.inner) ≡ false
      → ((add_pdu pdu db).0
          ≡ (if is_some (lookup (room_id pdu.inner) db.rooms) then ok tt else err room_not_found))
        × (get_pdu S H id event (add_pdu pdu db).1 ≡ (
            if is_some (lookup id db.rooms) && (id == room_id pdu.inner && id_of S H pdu == event)
            then elim (get_pdu S H id event db) [ ok none ↦ ok (some pdu) | other ↦ other ]
            else get_pdu S H id event db))
  unfolding add_pdu get_pdu
  get_pdu-add_pdu pdu id event db plain = (
    ground arith,
    elim (Option-cases (lookup id db.rooms)) [
      | inl missing ↦ ground (arith, lookup-add_pdu pdu id db)
      | inr (room, e) ↦ ground (
        arith,
        lookup-add_pdu pdu id db,
        find-concat (λ (p : StoredPdu J). id_of S H p == event) room.events pdu,
      )
    ],
  )
