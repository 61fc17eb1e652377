-- ===== src/ClientApi/RoomEvents.antt =====
-- client_api/room_events.rs: reading and sending events; `sync` is in Sync.
use kerux.Prelude.{String, Bool, true, false, ◌&&◌, not, Option, none, some, List, [], ◌∷◌}
use kerux.Prelude.Tests.{if◌then◌else◌}
use kerux.Prelude.Equality.{◌==◌, option_eq}
use kerux.Prelude.Lists.{keep}
use kerux.Prelude.Ints.{ℤ}
use kerux.Errors.{forbidden, not_found, txn_id_exists, unimplemented}
use kerux.Exec.{Exec, reads, pure, raise, ok_or, ◌>>=◌, ◌>>◌}
use kerux.Mxid.{MatrixId}
use kerux.Events.Room.{Membership, membership_eq}
use kerux.Events.Content.{EventContent, member, new}
use kerux.Events.Pdu.{Event, to_client_format}
use kerux.Storage.Mem.{Uuid, Instant}
use kerux.Storage.Mem.Accounts.{record_txn}
use kerux.Storage.Mem.Rooms.{get_pdu}
use kerux.Storage.Mem.Ephemeral.{set_typing}
use kerux.Storage.Reader
use kerux.Storage.Reader.{mem_reader}
use kerux.Util.NewEvent.{NewEvent}
use kerux.Util.AddEvent.{Server, on_db}
use kerux.ClientApi.{Context, authenticate, own_id, signed_in}
use kerux.ClientApi.Room.{add, state_event}

-- The two optional filters of a request for the members.
pub record MembersRequest : Type 0 where
  pub membership : Option Membership
  pub not_membership : Option Membership

abbrev pub member_passes : MembersRequest → Membership → Bool
member_passes req m =
    (elim req.membership [ none ↦ true | some filter ↦ m == filter ])
    && (elim req.not_membership [ none ↦ true | some exclude ↦ not (m == exclude) ])

module _ {J : Type 0} where
  -- The closure of `get_members`.
  abbrev pub is_wanted : MembersRequest → Event J → Bool
  is_wanted req e = elim e.event_content [ member c ↦ member_passes req c.membership | _ ↦ false ]

  module _ (cx : Context J) where
    abbrev pub membership_of : MatrixId → String → Exec (Server J) (Option Membership)
    membership_of user_id room =
        reads (λ (s : Server J).
          Reader.get_membership (mem_reader cx.serde cx.hashing s.db) user_id room)

    -- `!= Some(Membership::Join)` is forbidden.
    abbrev pub joined_only : Option Membership → Exec (Server J) (Unit {0})
    joined_only m = if m == some Membership.join then pure tt else raise forbidden

    -- Past members are told that their view is unimplemented.
    abbrev pub joined_now : Option Membership → Exec (Server J) (Unit {0})
    joined_now none = raise forbidden
    joined_now (some Membership.join) = pure tt
    joined_now (some _) = raise unimplemented

    unfoldable pub get_event : Uuid → String → String → Exec (Server J) (Event J)
    get_event token room event_id = do
      user_id ← signed_in cx token
      m ← membership_of user_id room
      joined_only m
      found ← reads (λ (s : Server J). get_pdu cx.serde cx.hashing room event_id s.db)
      pdu ← ok_or found not_found
      pure (to_client_format pdu.inner)

    -- Also `get_state_event_no_key`, with the empty state key, and `get_state_event_key`.
    unfoldable pub get_state_event_inner :
        Uuid → String → String → String → Exec (Server J) (Event J)
    get_state_event_inner token room event_type state_key = do
      user_id ← signed_in cx token
      m ← membership_of user_id room
      joined_only m
      found ← reads (λ (s : Server J).
          Reader.get_state_event (mem_reader cx.serde cx.hashing s.db) room event_type state_key)
      ok_or found not_found

    abbrev full_state : String → Exec (Server J) (List (Event J))
    full_state room =
        reads (λ (s : Server J). Reader.get_full_state (mem_reader cx.serde cx.hashing s.db) room)

    unfoldable pub get_state : Uuid → String → Exec (Server J) (List (Event J))
    get_state token room = do
      user_id ← signed_in cx token
      m ← membership_of user_id room
      joined_now m
      full_state room

    unfoldable pub get_members : Uuid → String → MembersRequest → Exec (Server J) (List (Event J))
    get_members token room req = do
      user_id ← signed_in cx token
      m ← membership_of user_id room
      joined_now m
      events ← full_state room
      pure (keep (is_wanted req) events)

    unfoldable pub send_state_event :
        ℤ → Uuid → String → String → String → J → Exec (Server J) String
    send_state_event now token room event_type state_key body = do
      user_id ← signed_in cx token
      content ← reads (λ _. new cx.serde event_type body)
      add cx now room (state_event user_id state_key content)

    -- `event_content` is read before the typing notification is taken back.
    abbrev pub message_event : MatrixId → String → EventContent J → NewEvent J
    message_event user_id txn_id content = record {
      event_content = content;
      sender = user_id;
      state_key = none;
      redacts = none;
      unsigned = some (cx.serde.object (("transaction_id", cx.serde.string txn_id) ∷ []));
    }

    abbrev pub fresh_only : Bool → Exec (Server J) (Unit {0})
    fresh_only true = pure tt
    fresh_only false = raise txn_id_exists

    unfoldable pub send_event :
        ℤ → Instant → Uuid → String → String → String → J → Exec (Server J) String
    send_event now clock token room event_type txn_id body = do
      username ← authenticate token
      fresh ← on_db (record_txn token txn_id)
      fresh_only fresh
      user_id ← own_id cx username
      content ← reads (λ _. new cx.serde event_type body)
      on_db (set_typing clock room user_id false 0)
      add cx now room (message_event user_id txn_id content)
