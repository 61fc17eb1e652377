-- ===== src/State/Resolver.antt =====
-- state/mod.rs: `StateResolver`, which works out the state of a room after a set of events. The
-- storage is read through a `Reader`. Sets and maps are lists, in an order that stands for the
-- unspecified one of Rust. Loops and recursion are on rounds; `running` says that they were not
-- enough.
pub mod Graph
pub mod Resolve
pub mod Checks
pub mod Chains
pub mod Enough
pub mod Difference
pub mod Conflicts
pub mod Linear
mod Tests
use Prim.Native.String.{compare as compare_string}
use kerux.Prelude.{ℕ, zero, suc, String, Bool, true, false, ◌&&◌, ◌||◌, not, Option, none, some}
use kerux.Prelude.{List, [], ◌∷◌, ◌++◌, map, compare, Ordering}
use kerux.Prelude.Tests.{is_some, if◌then◌else◌}
use kerux.Prelude.Equality.{◌==◌, string_eq, pair_eq, option_eq}
use kerux.Prelude.Lists.{contains, all, any, keep, is_empty, find, length}
use kerux.Prelude.Ints.{compare_ℤ}
use kerux.Prelude.Maps.{HashMap, HashSet, lookup, insert, contains_key, set_insert}
use kerux.Errors.{Outcome, ok, panic, running, ◌>>=◌}
use kerux.Mxid.{MatrixId, mxid_eq}
use kerux.Events.Room.{Member, Membership, membership_eq}
use kerux.Events.Content.{EventContent, power_levels, join_rules, member, Serde, get_type}
use kerux.Events.Pdu.{VersionedPdu, StoredPdu, Hashing, pass, event_content, state_key, sender}
use kerux.Events.Pdu.{auth_events, origin_server_ts, event_id}
use kerux.Storage.Reader.{Reader}
use kerux.State.{State, expect, insert_event}
use kerux.State.Sorting.{sort_by}
use kerux.Util.Sender.{get_sender_power_level}
use kerux.Validate.Auth.{auth_check_v1, is_pass}

-- The first comparison that is not `Equal`.
abbrev pub then_by : Ordering → Ordering → Ordering
then_by Ordering.eq o = o
then_by o _ = o

-- `Ordering::reverse`
abbrev pub reverse : Ordering → Ordering
reverse Ordering.lt = Ordering.gt
reverse Ordering.gt = Ordering.lt
reverse Ordering.eq = Ordering.eq

module _ {J : Type 0} where
  pub is_power_event : VersionedPdu J → Bool
  is_power_event pdu = elim (event_content pdu) [
    | power_levels c ↦ true
    | join_rules c ↦ true
    | member c ↦
        (c.membership == Membership.leave || c.membership == Membership.ban)
        && not (state_key pdu == some (sender pdu).inner)
    | _ ↦ false
  ]

  -- The part of `auth_types_for_event` for membership events.
  abbrev pub member_types :
      VersionedPdu J
      → EventContent J
      → HashSet (String × String)
      → Outcome (HashSet (String × String))
  member_types pdu (member c) keys = do
    key ← expect (state_key pdu)
    let with_target = set_insert ("m.room.member", key) keys
    ok (
        if c.membership == Membership.join || c.membership == Membership.invite
        then set_insert ("m.room.join_rules", "") with_target
        else with_target)
  member_types pdu _ keys = ok keys

  unfoldable pub auth_types_for_event : VersionedPdu J → Outcome (HashSet (String × String))
  auth_types_for_event pdu =
      if get_type (event_content pdu) == "m.room.create"
      then ok []
      else member_types pdu (event_content pdu) (
          set_insert ("m.room.power_levels", "")
            (set_insert ("m.room.member", (sender pdu).inner) (("m.room.create", "") ∷ [])))

module _ {J : Type 0} (S : Serde J) (H : Hashing J) where
  abbrev pub stored_id : StoredPdu J → String
  stored_id e = event_id S H e.inner

  -- `mainline_cmp`; `none` is `usize::MAX`.
  abbrev compare_index : Option ℕ → Option ℕ → Ordering
  compare_index none none = Ordering.eq
  compare_index none (some n) = Ordering.gt
  compare_index (some m) none = Ordering.lt
  compare_index (some m) (some n) = compare m n

  abbrev distinct : Ordering → Outcome Ordering
  distinct Ordering.eq = panic
  distinct o = ok o

  pub mainline_cmp : StoredPdu J × Option ℕ → StoredPdu J × Option ℕ → Outcome Ordering
  mainline_cmp (e, i) (f, j) = distinct (
      then_by (reverse (compare_index i j)) (
        then_by (compare_ℤ (origin_server_ts e.inner) (origin_server_ts f.inner))
          (compare_string (stored_id e) (stored_id f))))

  module _ (is_server_name : String → Bool) (r : Reader J) where
    -- `db.get_pdu(..).await?.unwrap()`
    abbrev pub fetch : String → String → Outcome (StoredPdu J)
    fetch room id = do found ← r.get_pdu room id; expect found

    -- The events that exist, of a list of identifiers.
    pub fetch_present : String → List String → Outcome (List (StoredPdu J))
    fetch_present room [] = ok []
    fetch_present room (id ∷ ids) = do
      found ← r.get_pdu room id
      rest ← fetch_present room ids
      ok (elim found [ none ↦ rest | some e ↦ e ∷ rest ])

    -- The keys that the state lacks, filled in from the event's auth events.
    pub fill_state : List (StoredPdu J) → List (String × String) → State → Outcome State
    fill_state events [] st = ok st
    fill_state events ((kind, key) ∷ keys) st =
        if contains_key (kind, key) st.map then fill_state events keys st else do
          fallback ← expect (
              find
                (λ (e : StoredPdu J).
                  get_type (event_content e.inner) == kind && state_key e.inner == some key)
                events)
          st' ← insert_event S H fallback.inner st
          fill_state events keys st'

    abbrev add_allowed : VersionedPdu J → Bool → State → Outcome State
    add_allowed pdu true st = insert_event S H pdu st
    add_allowed pdu false st = ok st

    -- One round of `iterative_auth_checks`.
    pub auth_step : VersionedPdu J → State → Outcome State
    unfolding fetch_present fill_state
    auth_step pdu st = do
      events ← fetch_present st.room_id (auth_events pdu)
      keys ← auth_types_for_event pdu
      frankenstate ← fill_state events keys st
      status ← auth_check_v1 is_server_name r pdu frankenstate
      add_allowed pdu (is_pass status) st

    pub iterative_auth_checks : List (VersionedPdu J) → State → Outcome State
    iterative_auth_checks [] st = ok st
    iterative_auth_checks (pdu ∷ pdus) st = do
      st' ← auth_step pdu st
      iterative_auth_checks pdus st'
