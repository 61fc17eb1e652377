-- ===== src/Events/Tests.antt =====
-- events/: the theorems on redaction and on the written form at concrete events.
use kerux.Prelude.{String, ◌≡◌, refl, none, some}
use kerux.Events.Levels.{notifications, default_notifications}
use kerux.Errors.{ok}
use kerux.Events.Room.{unwrap_or}
use kerux.Events.Serialized.{serialize, deserialize, deserialize-serialize}
use kerux.Events.Content.{Serde, name, content_as_json}
use kerux.Events.Pdu.{redact_v4, event_id_v4}
use kerux.Events.Pdu.{pdu, redact_stored, redact_versioned, event_id}
use kerux.Events.Redaction.{event_id-redact_v4}
use kerux.Fixtures.{runs, passed, serde, hashing, old_levels, created, create_pdu}

event_id-redact_v4_example :
    (event_id_v4 serde hashing (redact_v4 serde (pdu create_pdu))
      ≡ event_id_v4 serde hashing (pdu create_pdu))
    × (event_id_v4 serde hashing
          (record (pdu create_pdu) { unsigned = some "age"; redacts = none; signatures = none })
        ≡ event_id_v4 serde hashing (pdu create_pdu))
event_id-redact_v4_example =
    event_id-redact_v4 serde hashing (pdu create_pdu) (some "age") none none

redacted :
    (content_as_json serde created ≡ "create")
    × (event_id serde hashing (redact_stored serde (passed create_pdu)).inner ≡ "$c")
    × (notifications old_levels ≡ default_notifications)
unfolding runs content_as_json redact_stored redact_versioned notifications default_notifications
redacted = (refl, refl, refl)

-- A serde that writes a name as its text.
abbrev names : Serde String
names = record serde {
  to_name = λ text. ok (record { name = some text });
  from_name = λ n. unwrap_or n.name "";
}

deserialize-serialize_example :
    deserialize names (serialize names (name (record { name = some "one" })))
    ≡ ok (name (record { name = some "one" }))
deserialize-serialize_example =
    deserialize-serialize names (name (record { name = some "one" })) refl
