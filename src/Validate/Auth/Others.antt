-- ===== src/Validate/Auth/Others.antt =====
-- validate/auth.rs: the rules for events other than create and membership events.
use kerux.Prelude.{◌≤◌, String, ◌≡◌, ◌↔◌, Bool}
use kerux.Prelude.{false, Option, none, some, ◌⊎◌, arith}
use kerux.Prelude.Tests.{is_some, if◌then◌else◌}
use kerux.Prelude.Equality.{◌==◌, string_eq, pair_eq, option_eq}
use kerux.Errors.{ok}
use kerux.Mxid.{MatrixId, mxid_eq}
use kerux.Mxid.Text.{starts_with_char}
use kerux.Events.Room.{Membership, PowerLevels, membership_eq}
use kerux.Events.Levels
use kerux.Events.Content.{EventContent, power_levels, redaction, get_type}
use kerux.Events.Pdu.{VersionedPdu, pass, event_content, sender, state_key}
use kerux.Storage.Reader.{Reader}
use kerux.State.{State, get}
use kerux.Validate.Auth.{membership_in}
use kerux.Validate.Auth.{check_content, check_other}
use kerux.Validate.Auth.{foreign_key}
use kerux.Validate.Changes.{levels_denied}

module _ {J : Type 0} (is_server_name : String → Bool) (r : Reader J) where
  -- The tests of `check_other`, as they stand in the code.
  pub check_other_tests :
      (pdu : VersionedPdu J) (st : State) (levels : PowerLevels) (own : Option Membership)
      → membership_in is_server_name r st (sender pdu).inner ≡ ok own
      → (check_other is_server_name r pdu st levels ≡ ok pass) ↔ (
          (own ≡ some Membership.join)
          × (if get_type (event_content pdu) == "m.room.third_party_invite"
              then Levels.invite levels ≤ Levels.get_user_level levels (sender pdu)
              else (Levels.get_event_level levels
                    (get_type (event_content pdu))
                    (is_some (state_key pdu))
                  ≤ Levels.get_user_level levels (sender pdu))
                × (foreign_key is_server_name r (sender pdu) (state_key pdu) ≡ false)
                × (check_content is_server_name r pdu st levels (event_content pdu) ≡ ok pass)))
  unfolding check_other
  check_other_tests pdu st levels own joined = ground arith

  -- A state key that starts with '@' is the user's own identifier.
  abbrev pub OwnKey : MatrixId → Option String → Type 0
  OwnKey user none = Unit {0}
  OwnKey user (some key) = (starts_with_char b'@' key ≡ false) ⊎ (key ≡ user.inner)

  -- What an event's content asks of its sender, beside the level for the event's type: a change of
  -- power levels, in a state that has some, is within the sender's own level, and a redaction needs
  -- the level for redactions.
  abbrev pub ContentAllowed : MatrixId → State → PowerLevels → EventContent J → Type 0
  ContentAllowed user st levels (power_levels new) =
      (get st "m.room.power_levels" "" ≡ none)
      ⊎ (levels_denied user (Levels.get_user_level levels user) levels new ≡ false)
  ContentAllowed user st levels (redaction c) =
      Levels.redact levels ≤ Levels.get_user_level levels user
  ContentAllowed user st levels _ = Unit {0}
