-- ===== src/ClientApi/Sync/Access.antt =====
-- client_api/room_events.rs: whose rooms `sync` shows.
use kerux.Prelude.{String, ◌≡◌, refl, subst, Bool, true, false, Option}
use kerux.Prelude.{none, some, List}
use kerux.Prelude.Tests.{if◌then◌else◌}
use kerux.Prelude.Equality.{option_eq, string_eq}
use kerux.Prelude.Lists.{is_empty}
use kerux.Prelude.Maps.{lookup}
use kerux.Errors.{ok, ok-injective}
use kerux.Exec.{Exec, continue_ok}
use kerux.Mxid.{MatrixId}
use kerux.Events.Room.{Membership, membership_eq, unwrap_or}
use kerux.Storage.Mem.{Uuid, Instant, MemStorage}
use kerux.Storage.Mem.Accounts.{get_batch, set_batch}
use kerux.Storage.Mem.Rooms.{get_rooms}
use kerux.Storage.Mem.Ephemeral.{Typing}
use kerux.Storage.Reader
use kerux.Storage.Reader.{Reader, mem_reader}
use kerux.Util.AddEvent.{Server}
use kerux.ClientApi.{Context}
use kerux.ClientApi.Access.{SignedIn, IsJoined, after_signed_in}
use kerux.ClientApi.Sync.{
  JoinedRoom, Progress, SyncRequest, SyncResponse, joined_of, invited_of, StrippedState,
}
use kerux.ClientApi.Sync.{memberships_of, sync_rooms}
use kerux.ClientApi.Sync.{woken}
use kerux.ClientApi.Sync.Waiting.{Wake, sync, nth, waiting_rooms, start_of, select_first, respond}
use kerux.ClientApi.Sync.Held.{memberships_of-AreHeld, nth_waiting}
use kerux.ClientApi.Sync.Shown.{none-Shown, woken-Shown, sync_rooms-Shown, Shown}

module _ {J : Type 0} (cx : Context J) (to_value : Typing → J) where
  -- A test has two ways to end well.
  either_way :
      {A : Type 0} {C : Type 0} (b : Bool) (m n : Exec (Server J) A) (s : Server J) {a : A}
      → ((m s).0 ≡ ok a → C)
      → ((n s).0 ≡ ok a → C)
      → ((if b then m else n) s).0 ≡ ok a
      → C
  either_way true m n s f g h = f h
  either_way false m n s f g h = g h

  respond-Shown :
      (P Q : String → Type 0) (id : String) (p : Progress J) (s : Server J) (res : SyncResponse J)
      → Shown P Q p.rooms
      → (respond cx to_value id p s).0 ≡ ok res
      → Shown P Q res.rooms
  respond-Shown P Q id p s res all h =
      let (_, _, h1, _) = continue_ok (set_batch id p.batch s.db).0 _ _ h in
      subst (λ (x : SyncResponse J). Shown P Q x.rooms) (ok-injective _ res h1) all

  select_first-Shown :
      (P Q : String → Type 0) (now : Instant) (id : String) (first : Option String) (p : Progress J)
      (db : MemStorage J) (s : Server J) (res : SyncResponse J)
      → ((room : String) → first ≡ some room → P room)
      → Shown P Q p.rooms
      → (select_first cx to_value now id first p db s).0 ≡ ok res
      → Shown P Q res.rooms
  select_first-Shown P Q now id none p db s res is all h = respond-Shown P Q id p s res all h
  select_first-Shown P Q now id (some room) p db s res is all h =
      let (p', h0, h1, _) = continue_ok (woken cx to_value now db s.db room p) _ s h in
      respond-Shown P Q id p' s res
        (woken-Shown cx to_value P Q now db s.db room p p' (is room refl) all h0) h1

  -- The user is invited to the room, by the membership that the storage has.
  abbrev pub IsInvited : MatrixId → String → Server J → Type 0
  IsInvited user room s =
      Reader.get_membership (mem_reader cx.serde cx.hashing s.db) user room
      ≡ ok (some Membership.invite)

  -- Who gets an answer is signed in, and the rooms of the answer are theirs.
  sync-Shown :
      (now woken_at : Instant) (wake : Wake J) (id : String) (token : Uuid) (req : SyncRequest)
      (s : Server J) (res : SyncResponse J)
      → (sync cx to_value now woken_at wake id token req s).0 ≡ ok res
      → (user : MatrixId) × SignedIn cx token user s
        × Shown (λ y. IsJoined cx user y s) (λ y. IsInvited user y s) res.rooms
  unfolding sync
  sync-Shown now woken_at wake id token req s res h =
      let r = mem_reader cx.serde cx.hashing s.db in
      let (user, there, h1, _) = after_signed_in cx _ token s h in
      let (batch, _, h2, _) = continue_ok (get_batch (unwrap_or req.since "empty") s.db) _ s h1 in
      let (rooms, _, h3, _) = continue_ok (get_rooms s.db) _ s h2 in
      let (ms, ms_are, h4, _) = continue_ok (memberships_of r user rooms) _ s h3 in
      let held = memberships_of-AreHeld r user rooms ms ms_are in
      let (p, p_is, h5, _) =
        continue_ok (sync_rooms cx to_value now s.db req.full_state ms (start_of cx to_value batch))
          _ s h4 in
      let all =
        sync_rooms-Shown cx to_value now s.db req.full_state r user ms _ p held
          (none-Shown cx to_value _ _) p_is in
      let answered =
        either_way p.something_happened _ _ s
          (respond-Shown (λ y. IsJoined cx user y s) (λ y. IsInvited user y s) id p s res all)
          (either_way (is_empty (waiting_rooms ms)) _ _ s (respond-Shown _ _ id p s res all) (
            select_first-Shown _ _ woken_at id (nth wake.first (waiting_rooms ms)) p s.db
              (record s { db = wake.later }) res (λ y. nth_waiting r user ms wake.first y held)
              all))
          h5 in
      (user, there, answered)

  -- An answer of `sync` has a room among the joined rooms, with its timeline and state, only for a
  -- user who is in it when the request comes, by a token that the server knows; this holds too for
  -- a room whose events the request has waited for.
  pub sync-IsJoined :
      (now woken_at : Instant) (wake : Wake J) (id : String) (token : Uuid) (req : SyncRequest)
      (s : Server J) (res : SyncResponse J) (room : String) (j : JoinedRoom J)
      → (sync cx to_value now woken_at wake id token req s).0 ≡ ok res
      → lookup room (joined_of res.rooms) ≡ some j
      → (user : MatrixId) × SignedIn cx token user s × IsJoined cx user room s
  sync-IsJoined now woken_at wake id token req s res room j h shown =
      let (user, there, all) = sync-Shown now woken_at wake id token req s res h in
      (user, there, all.in_joined room j shown)

  -- An answer of `sync` has a room among the invitations, with the room's state, only for a user who
  -- is invited to it when the request comes, by a token that the server knows.
  pub sync-IsInvited :
      (now woken_at : Instant) (wake : Wake J) (id : String) (token : Uuid) (req : SyncRequest)
      (s : Server J) (res : SyncResponse J) (room : String) (state : List (StrippedState J))
      → (sync cx to_value now woken_at wake id token req s).0 ≡ ok res
      → lookup room (invited_of res.rooms) ≡ some state
      → (user : MatrixId) × SignedIn cx token user s × IsInvited user room s
  sync-IsInvited now woken_at wake id token req s res room state h shown =
      let (user, there, all) = sync-Shown now woken_at wake id token req s res h in
      (user, there, all.in_invited room state shown)
