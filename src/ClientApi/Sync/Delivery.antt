-- ===== src/ClientApi/Sync/Delivery.antt =====
-- client_api/room_events.rs: which events of a room `sync` shows, and what its batch remembers.
use kerux.Prelude.{ℕ, ◌+◌, ◌≤◌, String, ◌≡◌, refl, sym, ap, ◌∙◌, subst, Bool, true, false}
use kerux.Prelude.{Option, some, List, [], ◌∷◌, ◌++◌, map, arith}
use kerux.Prelude.Tests.{if◌then◌else◌}
use kerux.Prelude.Equality.{string_eq}
use kerux.Prelude.Lists.{length, drop, keep, is_empty, length-append}
use kerux.Prelude.Maps.{lookup, lookup-insert_self}
use kerux.Errors.{ok, >>=-eq-ok, ok-injective}
use kerux.Events.Room.{unwrap_or}
use kerux.Events.Content.{Serde}
use kerux.Events.Pdu.{StoredPdu, Event, to_client_format}
use kerux.Storage.Query.{matches, json_matches}
use kerux.Storage.Query.Matching.{is_hit}
use kerux.Storage.Mem.{Instant, MemStorage, Room}
use kerux.Storage.Mem.Rooms.{query_pdus}
use kerux.Storage.Mem.Rooms.Queries.{query_pdus_start-timeline, selection}
use kerux.Storage.Mem.Ephemeral.{Typing, get_all_ephemeral}
use kerux.Storage.Reader
use kerux.Storage.Reader.{Reader, mem_reader}
use kerux.ClientApi.{Context}
use kerux.ClientApi.Sync.{JoinedRoom, Progress, joined_of, sync_joined, joined_room}
use kerux.ClientApi.Sync.{timeline_query, from_of}

module _ {ℓ} {A : Type ℓ} where
  drop_past : (xs ys : List A) → drop (length xs) (xs ++ ys) ≡ ys
  drop_past [] ys = refl
  drop_past (x ∷ xs) ys = drop_past xs ys

  keep_all : (p : A → Bool) → ((a : A) → p a ≡ true) → (xs : List A) → keep p xs ≡ xs
  keep_all p h [] = refl
  keep_all p h (x ∷ xs) = ground (arith, h x, keep_all p h xs)

  some_first : (xs : List A) → is_empty xs ≡ false → (x : A) × (ys : List A) × (xs ≡ x ∷ ys)
  some_first [] h = absurd (ground arith)
  some_first (x ∷ xs) h = (x, xs, refl)

module _ {J : Type 0} where
  abbrev pub shown_as : List (StoredPdu J) → List (Event J)
  shown_as = map (λ (e : StoredPdu J). to_client_format e.inner)

  -- The query of `sync` has no filter.
  all_hit :
      (S : Serde J) (room : String) (from : ℕ) (pdu : StoredPdu J)
      → is_hit (matches S (timeline_query room from) pdu.inner) ≡ true
  unfolding matches json_matches
  all_hit S room from pdu = refl

module _ {J : Type 0} (cx : Context J) where
  query_rest :
      (db : MemStorage J) (id : String) (room : Room J) (e : StoredPdu J)
      (es old new : List (StoredPdu J))
      → lookup id db.rooms ≡ some room
      → room.events ≡ e ∷ es
      → e ∷ es ≡ old ++ new
      → Reader.query_events (mem_reader cx.serde cx.hashing db) (timeline_query id (length old))
        ≡ ok (shown_as new, length es)
  unfolding Reader.query_events query_pdus
  query_rest db id room e es old new found events parts =
      let rest : selection cx.serde (timeline_query id (length old)) (drop (length old) (e ∷ es))
          ≡ new =
        keep_all _ (all_hit cx.serde id (length old)) (drop (length old) (e ∷ es))
        ∙ ap (drop (length old)) parts
        ∙ drop_past old new in
      let fits : length old ≤ length (e ∷ es) =
        subst (λ (xs : List (StoredPdu J)). length old ≤ length xs) (sym parts)
          (omega (arith, length-append old new)) in
      rw
        (query_pdus_start-timeline cx.serde (timeline_query id 0) (length old) false db room e es
          found events refl fits)
        (ap (λ xs. ok (shown_as xs, length es)) rest)

  module _ (to_value : Typing → J) where
    joined_room-events :
        (now : Instant) (db : MemStorage J) (id : String) (state events : List (Event J))
        (j : JoinedRoom J)
        → joined_room cx to_value now db id state events ≡ ok j
        → j.timeline.events ≡ events
    unfolding joined_room
    joined_room-events now db id state events j h =
        let r = mem_reader cx.serde cx.hashing db in
        let ((joined, invited), _, h1) =
          >>=-eq-ok (Reader.get_room_member_counts r cx.serde id) _ h in
        let (ephemeral, _, h2) = >>=-eq-ok (get_all_ephemeral to_value now id db) _ h1 in
        sym (ap (λ (x : JoinedRoom J). x.timeline.events) (ok-injective _ j h2))

    -- The step that `sync` takes, before any waiting, for a room that the user is in and that has
    -- events: where the batch has seen the first events of the room, the step, if it ends well,
    -- shows exactly the events after those, all of them and in their order, and the batch has then
    -- seen every event of the room.
    pub sync_joined-Delivers :
        (now : Instant) (db : MemStorage J) (full : Bool) (id : String) (room : Room J)
        (old new : List (StoredPdu J)) (p q : Progress J)
        → lookup id db.rooms ≡ some room
        → room.events ≡ old ++ new
        → is_empty (old ++ new) ≡ false
        → from_of id p.batch ≡ length old
        → sync_joined cx to_value now db full id p ≡ ok q
        → (j : JoinedRoom J) × (lookup id (joined_of q.rooms) ≡ some j)
          × (j.timeline.events ≡ shown_as new)
          × (from_of id q.batch ≡ length (old ++ new))
    unfolding sync_joined
    sync_joined-Delivers now db full id room old new p q found events some_are seen h =
        let (e, es, parts) = some_first (old ++ new) some_are in
        let r = mem_reader cx.serde cx.hashing db in
        let ((shown, progress), h0, h1) =
          >>=-eq-ok (Reader.query_events r (timeline_query id (from_of id p.batch))) _ h in
        let (state_events, _, h2) =
          >>=-eq-ok (if full then Reader.get_full_state r id else ok []) _ h1 in
        let (joined, h3, h4) =
          >>=-eq-ok (joined_room cx to_value now db id state_events shown) _ h2 in
        let answer =
          ok-injective _ (shown, progress)
            (sym (query_rest db id room e es old new found (events ∙ parts) (sym parts))
              ∙ ap (λ n. Reader.query_events r (timeline_query id n)) (sym seen)
              ∙ h0) in
        let is = ok-injective _ q h4 in
        let count : length (e ∷ es) ≡ length es + 1 = omega arith in
        (
          joined,
          ap (λ (x : Progress J). lookup id (joined_of x.rooms)) (sym is)
              ∙ lookup-insert_self id joined _,
          joined_room-events now db id state_events shown joined h3
              ∙ sym (ap (λ (x : List (Event J) × ℕ). x.0) answer),
          ap (λ (x : Progress J). from_of id x.batch) (sym is)
              ∙ ap (λ (x : Option ℕ). unwrap_or x 0) (lookup-insert_self id (progress + 1) _)
              ∙ sym (ap (λ (x : List (Event J) × ℕ). x.1 + 1) answer)
              ∙ sym (ap (λ (xs : List (StoredPdu J)). length xs) parts ∙ count),
        )
