-- ===== src/Util/Sender.antt =====
-- util/storage.rs: `get_sender_power_level`, the level of an event's sender by the event's own auth
-- events.
use kerux.Prelude.{ℕ, String, Option, none, some, List, [], ◌∷◌}
use kerux.Prelude.Tests.{if◌then◌else◌}
use kerux.Prelude.Equality.{◌==◌}
use kerux.Errors.{Outcome, ok, panic, ◌>>=◌}
use kerux.Mxid.{MatrixId, mxid_eq}
use kerux.Events.Room.{Create}
use kerux.Events.Levels
use kerux.Events.Content.{create, power_levels}
use kerux.Events.Pdu.{event_content, sender, auth_events}
use kerux.Storage.Reader.{Reader}
use kerux.State.{expect}

module _ {J : Type 0} (r : Reader J) where
  -- After the loop: no power levels were met.
  abbrev level_by_creator : MatrixId → Option (Create J) → Outcome ℕ
  level_by_creator user none = panic
  level_by_creator user (some c) = ok (if user == c.creator then 100 else 0)

  -- The loop over the auth events, with the last create event that it met.
  pub scan_auth_events : String → MatrixId → List String → Option (Create J) → Outcome ℕ
  scan_auth_events room user [] found = level_by_creator user found
  scan_auth_events room user (id ∷ ids) found = do
    event ← r.get_pdu room id
    stored ← expect event
    (elim (event_content stored.inner) [
      | power_levels levels ↦ ok (Levels.get_user_level levels user)
      | create c ↦ scan_auth_events room user ids (some c)
      | _ ↦ scan_auth_events room user ids found
    ])

  unfoldable pub get_sender_power_level : String → String → Outcome ℕ
  unfolding scan_auth_events
  get_sender_power_level room id = do
    event ← r.get_pdu room id
    stored ← expect event
    scan_auth_events room (sender stored.inner) (auth_events stored.inner) none
