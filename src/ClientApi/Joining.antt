-- ===== src/ClientApi/Joining.antt =====
-- client_api/room.rs: `join_by_id_or_alias`, and the membership that a user has after it.
mod Tests
use kerux.Prelude.{ℕ, ◌≤◌, String, ◌≡◌, refl, sym, ap, ◌∙◌, subst, Bool, true, false, none, some}
use kerux.Prelude.{List, [], ◌∷◌, ◌++◌, map, arith}
use kerux.Prelude.Equality.{◌==◌, string_eq, nat_eq, ==_refl}
use kerux.Prelude.Lists.{keep, last?, last?-concat, keep-append, length, drop}
use kerux.Prelude.Maps.{lookup}
use kerux.Prelude.Ints.{ℤ}
use kerux.Errors.{Outcome, ok, ok-injective}
use kerux.Exec.{Exec, continue_ok}
use kerux.Mxid.{MatrixId, new}
use kerux.Events.Room.{Membership, Member, unwrap_or}
use kerux.Events.Content.{Serde, EventContent, member, get_type}
use kerux.Events.Pdu.{VersionedPdu, v4, StoredPdu, Event, Hashing, to_client_format}
use kerux.Events.Pdu.{event_content, state_key}
use kerux.Storage.Query.{
  UserProfile, EventQuery, default_profile, matches, json_matches, is_timeline,
}
use kerux.Storage.Query.Matching.{is_hit}
use kerux.Storage.Mem.{MemStorage, Room, Uuid}
use kerux.Storage.Mem.Accounts
use kerux.Storage.Mem.Accounts.{try_auth}
use kerux.Storage.Mem.Rooms.{push_event, query_pdus, query_pdus_start}
use kerux.Storage.Mem.Rooms.Queries.{selection, scan-eq-selection}
use kerux.Storage.Reader
use kerux.Storage.Reader.{mem_reader, state_query}
use kerux.Util.AddEvent.{Server}
use kerux.Util.AddEvent.Stored.{Added, add_event-Added}
use kerux.ClientApi.{Context, own_id}
use kerux.Util.NewEvent.{NewEvent}
use kerux.ClientApi.Room.{add, join_by_id_or_alias, membership_event}
use kerux.ClientApi.Access.{SignedIn, IsJoined, made_valid, past_token}

first_of : {A : Type 0} (xs : List A) (x : A) → (y : A) × (ys : List A) × (xs ++ (x ∷ []) ≡ y ∷ ys)
first_of [] x = (x, [], refl)
first_of (y ∷ xs) x = (y, xs ++ (x ∷ []), refl)

map-concat :
    {A B : Type 0} (f : A → B) (xs : List A) (x : A)
    → map f (xs ++ (x ∷ [])) ≡ map f xs ++ (f x ∷ [])
map-concat f [] x = refl
map-concat f (y ∷ xs) x = ap (λ ys. f y ∷ ys) (map-concat f xs x)

module _ {J : Type 0} (S : Serde J) (H : Hashing J) where
  shown_content : (pdu : VersionedPdu J) → (to_client_format pdu).event_content ≡ event_content pdu
  unfolding to_client_format
  shown_content (v4 p) = refl

  abbrev members_of : MemStorage J → String → MatrixId → EventQuery J
  members_of db room user =
      state_query (mem_reader S H db) room (user.inner ∷ []) ("m.room.member" ∷ []) none

  hit :
      (db : MemStorage J) (room : String) (user : MatrixId) (c : Member) (pdu : VersionedPdu J)
      → event_content pdu ≡ member c
      → state_key pdu ≡ some user.inner
      → is_hit (matches S (members_of db room user) pdu) ≡ true
  unfolding matches json_matches get_type string_eq
  hit db room user c pdu content key = rw (content, key) (ground (arith, ==_refl user.inner))

  query_last :
      (room : String) (user : MatrixId) (c : Member) (stored : StoredPdu J) (old : Room J)
      (db : MemStorage J)
      → lookup room db.rooms ≡ some (push_event stored old)
      → event_content stored.inner ≡ member c
      → state_key stored.inner ≡ some user.inner
      → query_pdus S (members_of db room user) false db db
        ≡ ok (
          selection S (members_of db room user) old.events ++ (stored ∷ []),
          length (first_of old.events stored).1,
        )
  unfolding query_pdus query_pdus_start is_timeline
  query_last room user c stored old db found content key =
      let q = members_of db room user in
      let (e, es, parts) = first_of old.events stored in
      let last : selection S q (stored ∷ []) ≡ stored ∷ [] =
        rw (hit db room user c stored.inner content key) refl in
      let all : selection S q (e ∷ es) ≡ selection S q old.events ++ (stored ∷ []) =
        ap (selection S q) (sym parts)
        ∙ keep-append _ old.events (stored ∷ [])
        ∙ ap (λ xs. selection S q old.events ++ xs) last in
      rw (scan-eq-selection S q 0 db (push_event stored old) e es found parts refl (omega arith))
        (ap (λ xs. ok (xs, length es)) all)

  -- The user's membership is what the last event says, if that is about it.
  get_membership_last :
      (room : String) (user : MatrixId) (c : Member) (stored : StoredPdu J) (old : Room J)
      (db : MemStorage J)
      → lookup room db.rooms ≡ some (push_event stored old)
      → event_content stored.inner ≡ member c
      → state_key stored.inner ≡ some user.inner
      → Reader.get_membership (mem_reader S H db) user room ≡ ok (some c.membership)
  unfolding Reader.get_membership Reader.query_events
  get_membership_last room user c stored old db found content key =
      let shown = λ (p : StoredPdu J). to_client_format p.inner in
      let sel = selection S (members_of db room user) old.events in
      let last : last? (map shown (sel ++ (stored ∷ []))) ≡ some (shown stored) =
        ap last? (map-concat shown sel stored) ∙ last?-concat (map shown sel) (shown stored) in
      let same : (shown stored).event_content ≡ member c = shown_content stored.inner ∙ content in
      rw (query_last room user c stored old db found content key, last, same) refl

module _ {J : Type 0} (cx : Context J) where
  -- Whoever gets an answer to a request to join a room is known by the token, and the event of their
  -- joining is added to the room as its last. From then on they are in the room, by the membership
  -- that the storage has, whether the auth check passed that event or refused it.
  pub join_by_id_or_alias-IsJoined :
      (now : ℤ) (token : Uuid) (room answer : String) (s : Server J)
      → (join_by_id_or_alias cx now token room s).0 ≡ ok answer
      → (user : MatrixId) × (id : String) × (profile : UserProfile) × SignedIn cx token user s
        × Added cx.serde cx.hashing cx.is_server_name cx.rounds room
            (membership_event user user.inner Membership.join profile (some false))
            id
            s.db
            (join_by_id_or_alias cx now token room s).1.db
        × IsJoined cx user room (join_by_id_or_alias cx now token room s).1
        × (answer ≡ room)
  unfolding join_by_id_or_alias try_auth
  join_by_id_or_alias-IsJoined now token room answer s h =
      let (name, known, h1, e1) = past_token cx (lookup token s.db.access_tokens) _ s h in
      let (user, made, h2, e2) = continue_ok (own_id cx name s).0 _ s h1 in
      let (found, _, h3, e3) = continue_ok (Accounts.get_profile name s.db) _ s h2 in
      let profile = unwrap_or found default_profile in
      let event = membership_event user user.inner Membership.join profile (some false) in
      let (id, added, h4, e4) = continue_ok (add cx now room event s).0 _ _ h3 in
      let a =
        add_event-Added cx.serde cx.hashing cx.is_server_name cx.rounds now room event s id added in
      let whole = e1 ∙ e2 ∙ e3 ∙ e4 in
      let (_, content, _, key, _) = a.carries in
      let after = (add cx now room event s).1 in
      (
        user,
        id,
        profile,
        (name, known, made_valid cx (new cx.is_server_name name cx.domain) user made),
        subst
            (λ (x : Outcome String × Server J).
              Added cx.serde cx.hashing cx.is_server_name cx.rounds room event id s.db x.1.db)
            (sym whole) a,
        subst (λ (x : Outcome String × Server J). IsJoined cx user room x.1) (sym whole)
            (get_membership_last cx.serde cx.hashing room user _ a.stored a.old after.db a.now
              content key),
        sym (ok-injective room answer h4),
      )
