-- ===== src/ClientApi/Sync/Shown.antt =====
-- client_api/room_events.rs: which rooms get into the response of `sync`, step by step.
use kerux.Prelude.{String, ◌≡◌, refl, sym, ap, ◌∙◌, subst, Bool, Option}
use kerux.Prelude.{none, some, List, [], ◌∷◌, inl, inr, arith}
use kerux.Prelude.Tests.{if◌then◌else◌, Bool-cases}
use kerux.Prelude.Equality.{◌==◌, ==-eq, option_eq, string_eq}
use kerux.Prelude.Lists.{contains}
use kerux.Prelude.Maps.{HashMap, lookup, insert, lookup-insert, lookup-nil}
use kerux.Errors.{ok, >>=-eq-ok, ok-injective}
use kerux.Mxid.{MatrixId}
use kerux.Events.Room.{Membership, membership_eq}
use kerux.Storage.Mem.{Instant, MemStorage}
use kerux.Storage.Mem.Ephemeral.{Typing}
use kerux.Storage.Reader
use kerux.Storage.Reader.{Reader, mem_reader}
use kerux.ClientApi.{Context}
use kerux.ClientApi.Sync.{Rooms, JoinedRoom, Progress, joined_of, invited_of}
use kerux.ClientApi.Sync.{sync_rooms, sync_room, sync_joined, sync_invited}
use kerux.ClientApi.Sync.{insert_joined, insert_invited, StrippedState, woken, strip}
use kerux.ClientApi.Sync.{timeline_query, from_of, joined_room, waiting_reader}
use kerux.ClientApi.Sync.Held.{AreHeld}

-- An insertion shows the room that is inserted, and those that were there.
inserted :
    {A : Type 0} (P : String → Type 0) (room : String) (a : A) (m : HashMap String A)
    → P room
    → ((y : String) (b : A) → lookup y m ≡ some b → P y)
    → (y : String) (b : A) → lookup y (insert room a m) ≡ some b
    → P y
inserted P room a m p all y b h = elim (Bool-cases (y == room)) [
  | inl e ↦ subst P (sym (==-eq y room e)) p
  | inr e ↦ all y b (ground (arith, lookup-insert y room a m))
]

none_there : {A : Type 0} (P : String → Type 0) (y : String) (b : A) → lookup y [] ≡ some b → P y
none_there {A = A} P y b h = absurd (ground (arith, lookup-nil {V = A} y))

module _ {J : Type 0} where
  -- Every room that the response has as one that the user is in is one of the first, and every room
  -- that it has as one that the user is invited to is one of the second.
  pub record Shown (P Q : String → Type 0) (rooms : Option (Rooms J)) : Type 0 where
    pub in_joined :
        (room : String) (j : JoinedRoom J) → lookup room (joined_of rooms) ≡ some j → P room
    pub in_invited :
        (room : String) (es : List (StrippedState J))
        → lookup room (invited_of rooms) ≡ some es
        → Q room

  insert_joined-Shown :
      (P Q : String → Type 0) (room : String) (j : JoinedRoom J) (rooms : Option (Rooms J))
      → P room
      → Shown P Q rooms
      → Shown P Q (insert_joined room j rooms)
  insert_joined-Shown P Q room j none p all = record {
    in_joined = inserted P room j [] p (none_there P);
    in_invited = none_there Q;
  }
  insert_joined-Shown P Q room j (some rs) p all = record {
    in_joined = inserted P room j rs.join p all.in_joined;
    in_invited = all.in_invited;
  }

  insert_invited-Shown :
      (P Q : String → Type 0) (room : String) (es : List (StrippedState J))
      (rooms : Option (Rooms J))
      → Q room
      → Shown P Q rooms
      → Shown P Q (insert_invited room es rooms)
  insert_invited-Shown P Q room es none q all = record {
    in_joined = none_there P;
    in_invited = inserted Q room es [] q (none_there Q);
  }
  insert_invited-Shown P Q room es (some rs) q all = record {
    in_joined = all.in_joined;
    in_invited = inserted Q room es rs.invite q all.in_invited;
  }

module _ {J : Type 0} (cx : Context J) (to_value : Typing → J) where
  pub none-Shown : (P Q : String → Type 0) → Shown {J = J} P Q none
  none-Shown P Q = record { in_joined = none_there P; in_invited = none_there Q }

  sync_joined-Shown :
      (P Q : String → Type 0) (now : Instant) (db : MemStorage J) (full : Bool) (room : String)
      (p q : Progress J)
      → P room
      → Shown P Q p.rooms
      → sync_joined cx to_value now db full room p ≡ ok q
      → Shown P Q q.rooms
  unfolding sync_joined
  sync_joined-Shown P Q now db full room p q is all h =
      let r = mem_reader cx.serde cx.hashing db in
      let ((events, progress), _, h1) =
        >>=-eq-ok (Reader.query_events r (timeline_query room (from_of room p.batch))) _ h in
      let (state_events, _, h2) =
        >>=-eq-ok (if full then Reader.get_full_state r room else ok []) _ h1 in
      let (joined, _, h3) =
        >>=-eq-ok (joined_room cx to_value now db room state_events events) _ h2 in
      subst (λ (x : Progress J). Shown P Q x.rooms) (ok-injective _ q h3)
        (insert_joined-Shown P Q room joined p.rooms is all)

  sync_invited-Shown :
      (P Q : String → Type 0) (db : MemStorage J) (room : String) (p q : Progress J)
      → Q room
      → Shown P Q p.rooms
      → sync_invited cx to_value db room p ≡ ok q
      → Shown P Q q.rooms
  unfolding sync_invited
  sync_invited-Shown P Q db room p q is all h =
      let (state_events, _, h1) =
        >>=-eq-ok (Reader.get_full_state (mem_reader cx.serde cx.hashing db) room) _ h in
      let (events, _, h2) = >>=-eq-ok (strip state_events) _ h1 in
      subst (λ (x : Progress J). Shown P Q x.rooms) (ok-injective _ q h2)
        (insert_invited-Shown P Q room events p.rooms is all)

  pub woken-Shown :
      (P Q : String → Type 0) (now : Instant) (db later : MemStorage J) (room : String)
      (p q : Progress J)
      → P room
      → Shown P Q p.rooms
      → woken cx to_value now db later room p ≡ ok q
      → Shown P Q q.rooms
  unfolding woken
  woken-Shown P Q now db later room p q is all h =
      let ((events, progress), _, h1) =
        >>=-eq-ok
          (Reader.query_events (waiting_reader cx to_value db later)
            (timeline_query room (from_of room p.batch)))
          _ h in
      let (joined, _, h2) = >>=-eq-ok (joined_room cx to_value now later room [] events) _ h1 in
      subst (λ (x : Progress J). Shown P Q x.rooms) (ok-injective _ q h2)
        (insert_joined-Shown P Q room joined p.rooms is all)

  sync_room-Shown :
      (P Q : String → Type 0) (now : Instant) (db : MemStorage J) (full : Bool) (room : String)
      (m : Membership) (p q : Progress J)
      → (m ≡ Membership.join → P room)
      → (m ≡ Membership.invite → Q room)
      → Shown P Q p.rooms
      → sync_room cx to_value now db full room m p ≡ ok q
      → Shown P Q q.rooms
  sync_room-Shown P Q now db full room Membership.join p q is asks all h =
      sync_joined-Shown P Q now db full room p q (is refl) all h
  sync_room-Shown P Q now db full room Membership.invite p q is asks all h =
      elim (Bool-cases (contains p.batch.invites room)) [
        | inl e ↦
            subst (λ (x : Progress J). Shown P Q x.rooms) (ok-injective p q (ground arith)) all
        | inr e ↦ sync_invited-Shown P Q db room p q (asks refl) all (ground arith)
      ]
  sync_room-Shown P Q now db full room Membership.leave p q is asks all h =
      subst (λ (x : Progress J). Shown P Q x.rooms) (ok-injective p q h) all
  sync_room-Shown P Q now db full room Membership.ban p q is asks all h =
      subst (λ (x : Progress J). Shown P Q x.rooms) (ok-injective p q h) all
  sync_room-Shown P Q now db full room Membership.knock p q is asks all h =
      subst (λ (x : Progress J). Shown P Q x.rooms) (ok-injective p q h) all

  -- The rooms that the user has a membership in, by that membership.
  abbrev pub HeldAs : Reader J → MatrixId → Membership → String → Type 0
  HeldAs r user m room = Reader.get_membership r user room ≡ ok (some m)

  pub sync_rooms-Shown :
      (now : Instant) (db : MemStorage J) (full : Bool) (r : Reader J) (user : MatrixId)
      (ms : HashMap String Membership) (p q : Progress J)
      → AreHeld r user ms
      → Shown (HeldAs r user Membership.join) (HeldAs r user Membership.invite) p.rooms
      → sync_rooms cx to_value now db full ms p ≡ ok q
      → Shown (HeldAs r user Membership.join) (HeldAs r user Membership.invite) q.rooms
  unfolding sync_rooms
  sync_rooms-Shown now db full r user [] p q held all h =
      subst
        (λ (x : Progress J).
          Shown (HeldAs r user Membership.join) (HeldAs r user Membership.invite) x.rooms)
        (ok-injective p q h) all
  sync_rooms-Shown now db full r user ((room, m) ∷ ms) p q (is, held) all h =
      let (p', h0, h1) = >>=-eq-ok (sync_room cx to_value now db full room m p) _ h in
      let as_held = λ (m' : Membership) (e : m ≡ m'). is ∙ ap (λ x. ok (some x)) e in
      sync_rooms-Shown now db full r user ms p' q held
        (sync_room-Shown _ _ now db full room m p p' (as_held Membership.join)
          (as_held Membership.invite) all h0)
        h1
