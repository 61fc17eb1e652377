-- ===== src/Events/Redaction.antt =====
-- events/: what redaction keeps. The identifier of a PDU is hashed over its redacted form, so the
-- laws of redaction are what makes identifiers stable.
use Prim.Native.String.{◌++◌ as ◌<>◌}
use kerux.Prelude.{String, ◌≡◌, refl, ap, Bool, Option, some, none, inl, inr, arith}
use kerux.Prelude.Tests.{Option-cases}
use kerux.Prelude.Maps.{HashMap}
use kerux.Errors.{ok}
use kerux.Mxid.{MatrixId}
use kerux.Events.Room.{PowerLevels}
use kerux.Events.Content.{EventContent, create}
use kerux.Events.Content.{Serde, get_type}
use kerux.Events.Pdu.{UnhashedPdu, PduV4, Hashing, redact_levels, redact_content, redact_v4}
use kerux.Events.Pdu.{redact_member, redact_create, event_id_v4, finalize}
use kerux.Events.Levels.{get_user_level, get_event_level, ban, kick}

-- Redaction takes no authority away and gives none: every user, every type of event, and the
-- levels needed to ban and to kick stay as they were.
pub redact_levels_authority :
    (p : PowerLevels) (user_id : MatrixId) (event_type : String) (is_state : Bool)
    → (get_user_level (redact_levels p) user_id ≡ get_user_level p user_id)
      × (get_event_level (redact_levels p) event_type is_state
          ≡ get_event_level p event_type is_state)
      × (ban (redact_levels p) ≡ ban p)
      × (kick (redact_levels p) ≡ kick p)
unfolding redact_levels get_user_level get_event_level ban kick
redact_levels_authority p user_id event_type is_state = (refl, refl, refl, refl)

module _ {J : Type 0} (S : Serde J) where
  redact_content_idem :
      (c : EventContent J) → redact_content S (redact_content S c) ≡ redact_content S c
  unfolding redact_content redact_create redact_levels redact_member
  redact_content_idem (create c) = refl
  redact_content_idem _ = refl

  -- Redacting the content keeps the type of the event.
  get_type-redact_content : (c : EventContent J) → get_type (redact_content S c) ≡ get_type c
  unfolding redact_content get_type
  get_type-redact_content (create c) = refl
  get_type-redact_content _ = refl

  redact_v4_idem : (p : PduV4 J) → redact_v4 S (redact_v4 S p) ≡ redact_v4 S p
  unfolding redact_v4
  redact_v4_idem p =
      ap (λ c. record p { event_content = c; unsigned = none; redacts = none })
        (redact_content_idem p.event_content)

  module _ (H : Hashing J) where
    -- A redacted PDU has the identifier of the PDU, and so has one whose signatures, unsigned data
    -- or redaction target are replaced by any others.
    pub event_id-redact_v4 :
        (p : PduV4 J) (u : Option J) (r : Option String) (sigs : Option (HashMap String J))
        → (event_id_v4 S H (redact_v4 S p) ≡ event_id_v4 S H p)
          × (event_id_v4 S H (record p { unsigned = u; redacts = r; signatures = sigs })
              ≡ event_id_v4 S H p)
    unfolding event_id_v4
    event_id-redact_v4 p u r sigs = (
      ap (λ (q : PduV4 J). "$" <> H.sha256_base64 (H.pdu_json (record q { signatures = none })))
          (redact_v4_idem p),
      unfold redact_v4 in refl,
    )

    -- Hashing a new PDU either panics, where its canonical JSON is refused, or keeps every field of
    -- it, adds the hash of that text and starts with no signature.
    pub finalize-keeps :
        (u : UnhashedPdu J) (p : PduV4 J)
        → finalize H u ≡ ok p
        → (json : String) × (H.unhashed_json u ≡ some json)
          × (p.hashes.sha256 ≡ H.sha256_base64 json)
          × (p.event_content ≡ u.event_content)
          × (p.room_id ≡ u.room_id)
          × (p.sender ≡ u.sender)
          × (p.state_key ≡ u.state_key)
          × (p.prev_events ≡ u.prev_events)
          × (p.auth_events ≡ u.auth_events)
          × (p.depth ≡ u.depth)
    unfolding finalize
    finalize-keeps u p h = elim (Option-cases (H.unhashed_json u)) [
      | inl refused ↦ absurd (ground arith)
      | inr (json, e) ↦ (
        json,
        e,
        ground arith,
        ground arith,
        ground arith,
        ground arith,
        ground arith,
        ground arith,
        ground arith,
        ground arith,
      )
    ]
