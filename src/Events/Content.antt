-- ===== src/Events/Content.antt =====
-- events/mod.rs: `EventContent`, one variant for each known type of event, as the macro
-- `define_event_content` expands. Serde's conversions are the parameter `Serde`.
use kerux.Prelude.{String, Option, List}
use kerux.Prelude.Tests.{if◌then◌else◌}
use kerux.Prelude.Equality.{Eq, ◌==◌, string_eq}
use kerux.Errors.{Outcome, ok, ◌>>=◌}
use kerux.Events.Room.{Create, JoinRules, HistoryVisibility, GuestAccess, Name, Topic, PowerLevels}
use kerux.Events.Room.{Member, Redaction}

pub data EventContent (J : Type 0) : Type 0 where
  create : Create J → EventContent J
  join_rules : JoinRules → EventContent J
  history_visibility : HistoryVisibility → EventContent J
  guest_access : GuestAccess → EventContent J
  name : Name → EventContent J
  topic : Topic → EventContent J
  power_levels : PowerLevels → EventContent J
  member : Member → EventContent J
  redaction : Redaction → EventContent J
  unknown : String → J → EventContent J

-- What the program uses of serde_json: objects and their fields, equality, and the derived
-- conversions of each content. A conversion from a value that fails gives its `ErrorKind`.
pub record Serde (J : Type 0) : Type 0 where
  pub json_eq : Eq J
  pub as_object : J → Option (List (String × J))
  pub get : J → String → Option J
  pub as_str : J → Option String
  pub empty_object : J
  pub object : List (String × J) → J
  pub string : String → J
  pub from_create : Create J → J
  pub from_join_rules : JoinRules → J
  pub from_history_visibility : HistoryVisibility → J
  pub from_guest_access : GuestAccess → J
  pub from_name : Name → J
  pub from_topic : Topic → J
  pub from_power_levels : PowerLevels → J
  pub from_member : Member → J
  pub from_redaction : Redaction → J
  pub to_create : J → Outcome (Create J)
  pub to_join_rules : J → Outcome JoinRules
  pub to_history_visibility : J → Outcome HistoryVisibility
  pub to_guest_access : J → Outcome GuestAccess
  pub to_name : J → Outcome Name
  pub to_topic : J → Outcome Topic
  pub to_power_levels : J → Outcome PowerLevels
  pub to_member : J → Outcome Member
  pub to_redaction : J → Outcome Redaction

module _ {J : Type 0} where
  unfoldable pub get_type : EventContent J → String
  get_type (create c) = "m.room.create"
  get_type (join_rules c) = "m.room.join_rules"
  get_type (history_visibility c) = "m.room.history_visibility"
  get_type (guest_access c) = "m.room.guest_access"
  get_type (name c) = "m.room.name"
  get_type (topic c) = "m.room.topic"
  get_type (power_levels c) = "m.room.power_levels"
  get_type (member c) = "m.room.member"
  get_type (redaction c) = "m.room.redaction"
  get_type (unknown ty content) = ty

module _ {J : Type 0} (S : Serde J) where
  open S use {to_create, to_join_rules, to_history_visibility, to_guest_access, to_name, to_topic}
  open S use {to_power_levels, to_member, to_redaction}
  open S use {from_create, from_join_rules, from_history_visibility, from_guest_access, from_name}
  open S use {from_topic, from_power_levels, from_member, from_redaction}

  -- `EventContent::new`
  unfoldable pub new : String → J → Outcome (EventContent J)
  new ty content =
      if ty == "m.room.create"
      then (do v ← to_create content; ok (create v))
      else if ty == "m.room.join_rules"
      then (do v ← to_join_rules content; ok (join_rules v))
      else if ty == "m.room.history_visibility"
      then (do v ← to_history_visibility content; ok (history_visibility v))
      else if ty == "m.room.guest_access"
      then (do v ← to_guest_access content; ok (guest_access v))
      else if ty == "m.room.name"
      then (do v ← to_name content; ok (name v))
      else if ty == "m.room.topic"
      then (do v ← to_topic content; ok (topic v))
      else if ty == "m.room.power_levels"
      then (do v ← to_power_levels content; ok (power_levels v))
      else if ty == "m.room.member"
      then (do v ← to_member content; ok (member v))
      else if ty == "m.room.redaction"
      then (do v ← to_redaction content; ok (redaction v))
      else ok (unknown ty content)

  unfoldable pub content_as_json : EventContent J → J
  content_as_json (create v) = from_create v
  content_as_json (join_rules v) = from_join_rules v
  content_as_json (history_visibility v) = from_history_visibility v
  content_as_json (guest_access v) = from_guest_access v
  content_as_json (name v) = from_name v
  content_as_json (topic v) = from_topic v
  content_as_json (power_levels v) = from_power_levels v
  content_as_json (member v) = from_member v
  content_as_json (redaction v) = from_redaction v
  content_as_json (unknown ty content) = content
