-- ===== src/State.antt =====
-- state/mod.rs: the state of a room, as a map from event types and state keys to event identifiers.
pub mod Lookup
pub mod Sorting
pub mod Resolver
mod Tests
use kerux.Prelude.{String, Bool, true, false, Option, none, some, List, []}
use kerux.Prelude.Equality.{string_eq, pair_eq}
use kerux.Prelude.Maps.{HashMap, lookup, insert}
use kerux.Errors.{Outcome, ok, panic, ◌>>=◌}
use kerux.Events.Room.{Create, JoinRules, PowerLevels, Member}
use kerux.Events.Content.{EventContent, create, join_rules, power_levels, member, Serde, get_type}
use kerux.Events.Pdu.{VersionedPdu, StoredPdu, Hashing, event_content, state_key, event_id}
use kerux.Storage.Reader.{Reader}

pub record State : Type 0 where
  pub room_id : String
  pub map : HashMap (String × String) String

-- `State::get`
unfoldable pub get : State → String → String → Option String
get st event_type key = lookup (event_type, key) st.map

-- `expect` and `unwrap`
abbrev pub expect {ℓ} : {A : Type ℓ} → Option A → Outcome A
expect none = panic
expect (some a) = ok a

module _ {J : Type 0} where
  -- `TryFrom<EventContent>` for the contents that are read from a state.
  abbrev pub as_create : EventContent J → Option (Create J)
  as_create (create c) = some c
  as_create _ = none

  abbrev pub as_member : EventContent J → Option Member
  as_member (member c) = some c
  as_member _ = none

  abbrev pub as_join_rules : EventContent J → Option JoinRules
  as_join_rules (join_rules c) = some c
  as_join_rules _ = none

  abbrev pub as_power_levels : EventContent J → Option PowerLevels
  as_power_levels (power_levels c) = some c
  as_power_levels _ = none

  -- `State::get_content`, of the event type whose content the conversion takes.
  unfoldable pub get_content :
      {T : Type 0}
      → Reader J
      → State
      → String
      → (EventContent J → Option T)
      → String
      → Outcome (Option T)
  get_content r st event_type convert key = elim (get st event_type key) [
    | none ↦ ok none
    | some id ↦ do
      found ← r.get_pdu st.room_id id
      event ← expect found
      content ← expect (convert (event_content event.inner))
      ok (some content)
  ]

module _ {J : Type 0} (S : Serde J) (H : Hashing J) where
  -- `State::insert_event`; an event with no state key panics.
  unfoldable pub insert_event : VersionedPdu J → State → Outcome State
  insert_event pdu st = do
    key ← expect (state_key pdu)
    ok (record st { map = insert (get_type (event_content pdu), key) (event_id S H pdu) st.map })
