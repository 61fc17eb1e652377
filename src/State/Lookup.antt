-- ===== src/State/Lookup.antt =====
-- state/mod.rs: reading a state after an event was put in.
use kerux.Prelude.{String, ◌≡◌, ◌&&◌, some, arith}
use kerux.Prelude.Tests.{if◌then◌else◌}
use kerux.Prelude.Equality.{◌==◌, string_eq, pair_eq}
use kerux.Prelude.Maps.{lookup-insert}
use kerux.Errors.{ok}
use kerux.Events.Content.{Serde, get_type}
use kerux.Events.Pdu.{VersionedPdu, Hashing, event_content, state_key, event_id}
use kerux.State.{State, get, insert_event}

module _ {J : Type 0} (S : Serde J) (H : Hashing J) where
  -- Putting a state event into a state makes its type and state key show its identifier, and
  -- changes no other key and not the room.
  pub get-insert_event :
      (pdu : VersionedPdu J) (key : String) (st st' : State) (event_type k : String)
      → state_key pdu ≡ some key
      → insert_event S H pdu st ≡ ok st'
      → (st'.room_id ≡ st.room_id)
        × (get st' event_type k ≡ (
            if event_type == get_type (event_content pdu) && k == key
            then some (event_id S H pdu)
            else get st event_type k))
  unfolding insert_event get pair_eq
  get-insert_event pdu key st st' event_type k keyed done = ground (
    arith,
    lookup-insert (event_type, k) (get_type (event_content pdu), key) (event_id S H pdu) st.map,
  )
