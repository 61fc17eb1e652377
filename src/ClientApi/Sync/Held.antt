-- ===== src/ClientApi/Sync/Held.antt =====
-- client_api/room_events.rs: the memberships that `sync` goes through, and the rooms it waits for.
use kerux.Prelude.{ℕ, zero, suc, String, ◌≡◌, ap, ◌∙◌, subst, Option}
use kerux.Prelude.{none, some, List, [], ◌∷◌, inl, inr, arith}
use kerux.Prelude.Tests.{Bool-cases}
use kerux.Prelude.Equality.{◌==◌, ==-eq, option_eq, string_eq}
use kerux.Prelude.Maps.{HashMap}
use kerux.Errors.{ok, >>=-eq-ok, ok-injective}
use kerux.Mxid.{MatrixId}
use kerux.Events.Room.{Membership, membership_eq}
use kerux.Storage.Reader
use kerux.Storage.Reader.{Reader, mem_reader}
use kerux.ClientApi.Sync.{memberships_of}
use kerux.ClientApi.Sync.Waiting.{nth, waiting_rooms}

nth_cons :
    (P : String → Type 0) (n : ℕ) (x room : String) (xs : List String)
    → P x
    → ((k : ℕ) → nth k xs ≡ some room → P room)
    → nth n (x ∷ xs) ≡ some room
    → P room
unfolding nth
nth_cons P zero x room xs px rest h = subst P (ground arith) px
nth_cons P (suc n) x room xs px rest h = rest n h

module _ {J : Type 0} where
  -- Every membership of the list is the one that the storage has.
  abbrev pub AreHeld : Reader J → MatrixId → HashMap String Membership → Type 0
  AreHeld r user [] = Unit
  AreHeld r user ((room, m) ∷ ms) =
      (Reader.get_membership r user room ≡ ok (some m)) × AreHeld r user ms

  add_found :
      (r : Reader J) (user : MatrixId) (room : String) (found : Option Membership)
      (ms : HashMap String Membership)
      → Reader.get_membership r user room ≡ ok found
      → AreHeld r user ms
      → AreHeld r user (elim found [ none ↦ ms | some m ↦ (room, m) ∷ ms ])
  add_found r user room none ms h held = held
  add_found r user room (some m) ms h held = (h, held)

  pub memberships_of-AreHeld :
      (r : Reader J) (user : MatrixId) (rooms : List String) (ms : HashMap String Membership)
      → memberships_of r user rooms ≡ ok ms
      → AreHeld r user ms
  unfolding memberships_of
  memberships_of-AreHeld r user [] ms h = subst (AreHeld r user) (ok-injective [] ms h) tt
  memberships_of-AreHeld r user (room ∷ rooms) ms h =
      let (found, h0, h1) = >>=-eq-ok (Reader.get_membership r user room) _ h in
      let (rest, h2, h3) = >>=-eq-ok (memberships_of r user rooms) _ h1 in
      subst (AreHeld r user) (ok-injective _ ms h3)
        (add_found r user room found rest h0 (memberships_of-AreHeld r user rooms rest h2))

  -- A query that waits is for a room that the user is in.
  pub nth_waiting :
      (r : Reader J) (user : MatrixId) (ms : HashMap String Membership) (n : ℕ) (room : String)
      → AreHeld r user ms
      → nth n (waiting_rooms ms) ≡ some room
      → Reader.get_membership r user room ≡ ok (some Membership.join)
  unfolding nth
  nth_waiting r user [] n room held h = cc
  nth_waiting r user ((x, m) ∷ ms) n room (is, held) h = elim (Bool-cases (m == Membership.join)) [
    | inl e ↦
        nth_cons (λ y. Reader.get_membership r user y ≡ ok (some Membership.join)) n x room
          (waiting_rooms ms) (is ∙ ap (λ y. ok (some y)) (==-eq m Membership.join e))
          (λ k. nth_waiting r user ms k room held) (ground arith)
    | inr e ↦ nth_waiting r user ms n room held (ground arith)
  ]
