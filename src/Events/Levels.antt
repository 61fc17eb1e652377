-- ===== src/Events/Levels.antt =====
-- events/room.rs: the methods of `PowerLevels`.
use kerux.Prelude.{ℕ, String, Bool, none, some, []}
use kerux.Prelude.Tests.{if◌then◌else◌}
use kerux.Prelude.Equality.{string_eq}
use kerux.Prelude.Maps.{lookup, insert}
use kerux.Mxid.{MatrixId, mxid_eq}
use kerux.Events.Room.{PowerLevels, Notifications, unwrap_or}

unfoldable pub no_event_default_levels : MatrixId → PowerLevels
no_event_default_levels room_creator = record {
  ban = some 50;
  invite = some 50;
  kick = some 50;
  redact = some 50;
  events = [];
  events_default = some 0;
  state_default = some 0;
  users = insert room_creator 100 [];
  users_default = some 0;
  notifications = none;
}

-- `impl Default for PowerLevels`; `Default::default()` of its `Option` of notifications is `None`.
unfoldable pub default_levels : PowerLevels
default_levels = record {
  ban = some 50;
  invite = some 50;
  kick = some 50;
  redact = some 50;
  events = [];
  events_default = some 0;
  state_default = some 50;
  users = [];
  users_default = some 50;
  notifications = none;
}

-- `impl Default for Notifications`
unfoldable pub default_notifications : Notifications
default_notifications = record { room = 50 }

unfoldable pub ban : PowerLevels → ℕ
ban p = unwrap_or p.ban 50

unfoldable pub invite : PowerLevels → ℕ
invite p = unwrap_or p.invite 50

unfoldable pub kick : PowerLevels → ℕ
kick p = unwrap_or p.kick 50

-- As in the source, this reads the field `kick`.
unfoldable pub redact : PowerLevels → ℕ
redact p = unwrap_or p.kick 50

unfoldable pub events_default : PowerLevels → ℕ
events_default p = unwrap_or p.events_default 0

unfoldable pub state_default : PowerLevels → ℕ
state_default p = unwrap_or p.state_default 50

unfoldable pub users_default : PowerLevels → ℕ
users_default p = unwrap_or p.users_default 0

unfoldable pub notifications : PowerLevels → Notifications
notifications p = unwrap_or p.notifications default_notifications

unfoldable pub get_user_level : PowerLevels → MatrixId → ℕ
get_user_level p user_id = unwrap_or (lookup user_id p.users) (unwrap_or p.users_default 0)

unfoldable pub get_event_level : PowerLevels → String → Bool → ℕ
get_event_level p event_type is_state_event =
    unwrap_or (lookup event_type p.events)
      (if is_state_event then unwrap_or p.state_default 50 else unwrap_or p.events_default 0)
