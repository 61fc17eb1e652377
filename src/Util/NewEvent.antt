-- ===== src/Util/NewEvent.antt =====
-- util/storage.rs: an event that is to be added, its auth events, and the PDU that it becomes.
use kerux.Prelude.{zero, suc, ◌+◌, String, ◌||◌}
use kerux.Prelude.{Option, none, some, List, [], ◌∷◌, ◌++◌}
use kerux.Prelude.Tests.{leb, if◌then◌else◌}
use kerux.Prelude.Equality.{◌==◌, string_eq, pair_eq, option_eq}
use kerux.Prelude.Ints.{ℤ, pos, negsuc, i64_max}
use kerux.Errors.{Outcome, ok, ◌>>=◌}
use kerux.Mxid.{MatrixId, domain}
use kerux.Events.Room.{Membership, membership_eq}
use kerux.Events.Content.{EventContent, member}
use kerux.Events.Pdu.{VersionedPdu, v4, Hashing, finalize}
use kerux.State.{State, get, expect}

pub record NewEvent (J : Type 0) : Type 0 where
  pub event_content : EventContent J
  pub sender : MatrixId
  pub state_key : Option String
  pub redacts : Option String
  pub unsigned : Option J

-- `if let Some(id) = .. { auth_events.push(id) }`
abbrev pub pushed : Option String → List String
pushed none = []
pushed (some id) = id ∷ []

-- `i64::saturating_add(1)`
abbrev pub saturating_inc : ℤ → ℤ
saturating_inc (pos n) = if leb i64_max n then pos i64_max else pos (n + 1)
saturating_inc (negsuc zero) = pos 0
saturating_inc (negsuc (suc n)) = negsuc n

module _ {J : Type 0} where
  -- The part of `calc_auth_events` for membership events.
  abbrev pub member_auth_events : EventContent J → Option String → State → Outcome (List String)
  member_auth_events (member content) state_key st = do
    target ← expect state_key
    ok (
        pushed (get st "m.room.member" target)
        ++ (if content.membership == Membership.join || content.membership == Membership.invite
            then pushed (get st "m.room.join_rules" "")
            else []))
  member_auth_events _ state_key st = ok []

  unfoldable pub calc_auth_events : NewEvent J → State → Outcome (List String)
  calc_auth_events event st = do
    created ← expect (get st "m.room.create" "")
    rest ← member_auth_events event.event_content event.state_key st
    ok (
        (created ∷ [])
        ++ (pushed (get st "m.room.power_levels" "")
            ++ (pushed (get st "m.room.member" event.sender.inner) ++ rest)))

  -- The PDU of `add_event`; the clock is read when it is built.
  unfoldable pub build_pdu :
      Hashing J → ℤ → String → NewEvent J → List String → ℤ → State → Outcome (VersionedPdu J)
  unfolding calc_auth_events
  build_pdu H now room event prev_events max_depth st = do
    auth_events ← calc_auth_events event st
    origin ← expect (domain event.sender)
    p ← finalize H (record {
      event_content = event.event_content;
      room_id = room;
      sender = event.sender;
      state_key = event.state_key;
      unsigned = event.unsigned;
      redacts = event.redacts;
      origin = origin;
      origin_server_ts = now;
      prev_events = prev_events;
      depth = saturating_inc max_depth;
      auth_events = auth_events;
    })
    ok (v4 p)
