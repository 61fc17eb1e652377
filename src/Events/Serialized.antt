-- ===== src/Events/Serialized.antt =====
-- events/mod.rs: how `EventContent` is written and read, beside its type, by the `Serialize` and
-- `Deserialize` that the macro `define_event_content` expands to.
use kerux.Prelude.{String, ◌≡◌, refl, false, List, [], ◌∷◌, arith}
use kerux.Prelude.Tests.{if◌then◌else◌}
use kerux.Prelude.Equality.{◌==◌, string_eq}
use kerux.Prelude.Lists.{contains}
use kerux.Errors.{Outcome, ok, ◌>>=◌}
use kerux.Events.Content.{EventContent, create, join_rules, history_visibility, guest_access, name}
use kerux.Events.Content.{topic, power_levels, member, redaction, unknown, Serde}

pub record Intermediate (J : Type 0) : Type 0 where
  pub ty : String
  pub content : J

module _ {J : Type 0} (S : Serde J) where
  open S use {to_create, to_join_rules, to_history_visibility, to_guest_access, to_name, to_topic}
  open S use {to_power_levels, to_member, to_redaction}
  open S use {from_create, from_join_rules, from_history_visibility, from_guest_access, from_name}
  open S use {from_topic, from_power_levels, from_member, from_redaction}

  unfoldable pub serialize : EventContent J → Intermediate J
  serialize (create v) = record { ty = "m.room.create"; content = from_create v }
  serialize (join_rules v) = record { ty = "m.room.join_rules"; content = from_join_rules v }
  serialize (history_visibility v) = record {
    ty = "m.room.history_visibility";
    content = from_history_visibility v;
  }
  serialize (guest_access v) = record { ty = "m.room.guest_access"; content = from_guest_access v }
  serialize (name v) = record { ty = "m.room.name"; content = from_name v }
  serialize (topic v) = record { ty = "m.room.topic"; content = from_topic v }
  serialize (power_levels v) = record { ty = "m.room.power_levels"; content = from_power_levels v }
  serialize (member v) = record { ty = "m.room.member"; content = from_member v }
  serialize (redaction v) = record { ty = "m.room.redaction"; content = from_redaction v }
  serialize (unknown t c) = record { ty = t; content = c }

  unfoldable pub deserialize : Intermediate J → Outcome (EventContent J)
  deserialize value =
      if value.ty == "m.room.create"
      then (do v ← to_create value.content; ok (create v))
      else if value.ty == "m.room.join_rules"
      then (do v ← to_join_rules value.content; ok (join_rules v))
      else if value.ty == "m.room.history_visibility"
      then (do v ← to_history_visibility value.content; ok (history_visibility v))
      else if value.ty == "m.room.guest_access"
      then (do v ← to_guest_access value.content; ok (guest_access v))
      else if value.ty == "m.room.name"
      then (do v ← to_name value.content; ok (name v))
      else if value.ty == "m.room.topic"
      then (do v ← to_topic value.content; ok (topic v))
      else if value.ty == "m.room.power_levels"
      then (do v ← to_power_levels value.content; ok (power_levels v))
      else if value.ty == "m.room.member"
      then (do v ← to_member value.content; ok (member v))
      else if value.ty == "m.room.redaction"
      then (do v ← to_redaction value.content; ok (redaction v))
      else ok (unknown value.ty value.content)

  abbrev known_types : List String
  known_types =
      "m.room.create" ∷ "m.room.join_rules" ∷ "m.room.history_visibility" ∷ "m.room.guest_access"
      ∷ "m.room.name" ∷ "m.room.topic" ∷ "m.room.power_levels" ∷ "m.room.member"
      ∷ "m.room.redaction" ∷ []

  -- Serde reads the content that it wrote; a content of an unknown type does not name a known one.
  abbrev pub IsReadable : EventContent J → Type 0
  IsReadable (create v) = to_create (from_create v) ≡ ok v
  IsReadable (join_rules v) = to_join_rules (from_join_rules v) ≡ ok v
  IsReadable (history_visibility v) = to_history_visibility (from_history_visibility v) ≡ ok v
  IsReadable (guest_access v) = to_guest_access (from_guest_access v) ≡ ok v
  IsReadable (name v) = to_name (from_name v) ≡ ok v
  IsReadable (topic v) = to_topic (from_topic v) ≡ ok v
  IsReadable (power_levels v) = to_power_levels (from_power_levels v) ≡ ok v
  IsReadable (member v) = to_member (from_member v) ≡ ok v
  IsReadable (redaction v) = to_redaction (from_redaction v) ≡ ok v
  IsReadable (unknown t c) = contains known_types t ≡ false

  unknown_read :
      (t : String) (c : J)
      → contains known_types t ≡ false
      → deserialize (record { ty = t; content = c }) ≡ ok (unknown t c)
  unfolding deserialize
  unknown_read t c h = ground arith

  -- An event's content that was written is read again as it was, whatever its type is, if serde
  -- reads the inner content that it wrote, and an unknown type is none of the known ones.
  pub deserialize-serialize : (c : EventContent J) → IsReadable c → deserialize (serialize c) ≡ ok c
  unfolding deserialize serialize string_eq
  deserialize-serialize (create v) h = rw h refl
  deserialize-serialize (join_rules v) h = rw h refl
  deserialize-serialize (history_visibility v) h = rw h refl
  deserialize-serialize (guest_access v) h = rw h refl
  deserialize-serialize (name v) h = rw h refl
  deserialize-serialize (topic v) h = rw h refl
  deserialize-serialize (power_levels v) h = rw h refl
  deserialize-serialize (member v) h = rw h refl
  deserialize-serialize (redaction v) h = rw h refl
  deserialize-serialize (unknown t c) h = unknown_read t c h
