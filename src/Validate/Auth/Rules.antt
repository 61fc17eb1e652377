-- ===== src/Validate/Auth/Rules.antt =====
-- validate/auth.rs: create events, and changes of power levels through the whole check.
use kerux.Prelude.{◌≤◌, String, ◌≡◌, ◌≢◌, ◌↔◌, refl, sym, ap, ◌∙◌, subst, Bool}
use kerux.Prelude.{true, false, Option, some, [], ◌⊎◌, arith}
use kerux.Prelude.Tests.{is_some, if◌then◌else◌}
use kerux.Prelude.Equality.{◌==◌, string_eq, pair_eq, option_eq}
use kerux.Prelude.Maps.{HashMap, contains_key}
use kerux.Errors.{ok, >>=-eq-ok}
use kerux.Mxid.{mxid_eq, domain}
use kerux.Mxid.Text.{after_first}
use kerux.Events.Room.{Create, Membership, PowerLevels, membership_eq}
use kerux.Events.Levels
use kerux.Events.Content.{EventContent, create, power_levels, get_type}
use kerux.Events.Pdu.{VersionedPdu, StoredPdu, pass, fail, event_content, sender, state_key}
use kerux.Events.Pdu.{room_id, prev_events, auth_events}
use kerux.Storage.Reader.{Reader}
use kerux.State.{State, get}
use kerux.Validate.Auth.{membership_in, check_create, load_auth_events, check_levels}
use kerux.Validate.Auth.{check_content, check_other, current_levels, check_with_auth_events}
use kerux.Validate.Auth.{auth_check_v1, foreign_key, by_kind}
use kerux.Validate.Changes.{levels_denied}
use kerux.Validate.Auth.Others.{check_other_tests}
use kerux.Validate.Auth.PowerChanges.{NoEscalation, levels_denied-NoEscalation}

module _ {J : Type 0} (is_server_name : String → Bool) (r : Reader J) where
  -- A create event whose room's identifier has a colon and whose sender has a domain is allowed or
  -- refused: it is allowed exactly if it has no predecessor and the sender's domain is the part of
  -- the room's identifier behind its first colon. With any other storage and any other state the
  -- answer is the same.
  pub auth_check_v1-create :
      (r' : Reader J) (pdu : VersionedPdu J) (st st' : State) (content : Create J)
      (room_domain sender_domain : String)
      → event_content pdu ≡ create content
      → after_first b':' (room_id pdu) ≡ some room_domain
      → domain (sender pdu) ≡ some sender_domain
      → ((auth_check_v1 is_server_name r pdu st ≡ ok pass)
          ↔ ((prev_events pdu ≡ []) × (sender_domain ≡ room_domain)))
        × ((auth_check_v1 is_server_name r pdu st ≡ ok pass)
            ⊎ (auth_check_v1 is_server_name r pdu st ≡ ok fail))
        × (auth_check_v1 is_server_name r' pdu st' ≡ auth_check_v1 is_server_name r pdu st)
  unfolding auth_check_v1 check_create
  auth_check_v1-create r' pdu st st' content room_domain sender_domain c rd sd =
      (ground arith, ground arith, ground arith)

  not_create :
      (pdu : VersionedPdu J) (st : State) (c : EventContent J)
      → ((content : Create J) → c ≢ create content)
      → by_kind is_server_name r pdu st c ≡ ok pass
      → check_with_auth_events is_server_name r pdu st ≡ ok pass
  not_create pdu st (create c) other h = absurd (other c refl)
  not_create pdu st _ other h = h

  -- An event of another kind passes only if its auth events, all of which are in the storage, hold
  -- a create event.
  pub auth_check_v1-needs_create :
      (pdu : VersionedPdu J) (st : State)
      → ((content : Create J) → event_content pdu ≢ create content)
      → auth_check_v1 is_server_name r pdu st ≡ ok pass
      → (events : HashMap (String × String) (StoredPdu J)) × (load_auth_events is_server_name r
            (room_id pdu)
            (auth_events pdu)
            []
          ≡ ok events)
        × (contains_key ("m.room.create", "") events ≡ true)
  unfolding auth_check_v1 check_with_auth_events
  auth_check_v1-needs_create pdu st other h =
      let (events, loaded, rest) =
        >>=-eq-ok (load_auth_events is_server_name r (room_id pdu) (auth_events pdu) []) _
          (not_create pdu st (event_content pdu) other h) in
      (events, loaded, ground arith)

  levels_pass :
      (pdu : VersionedPdu J) (st : State) (old new : PowerLevels) (current : String)
      → get st "m.room.power_levels" "" ≡ some current
      → check_content is_server_name r pdu st old (power_levels new) ≡ ok pass
      → levels_denied (sender pdu) (Levels.get_user_level old (sender pdu)) old new ≡ false
  unfolding check_content check_levels
  levels_pass pdu st old new current has h = ground arith

  change_pass :
      (pdu : VersionedPdu J) (st : State) (old new : PowerLevels)
      → event_content pdu ≡ power_levels new
      → current_levels is_server_name r st ≡ ok old
      → auth_check_v1 is_server_name r pdu st ≡ ok pass
      → check_other is_server_name r pdu st old ≡ ok pass
  unfolding auth_check_v1 check_with_auth_events
  change_pass pdu st old new c levels h =
      let (_, _, rest) =
        >>=-eq-ok (load_auth_events is_server_name r (room_id pdu) (auth_events pdu) []) _
          (sym (ap (by_kind is_server_name r pdu st) c) ∙ h) in
      ground arith

  levels_kind :
      (c : EventContent J) (new : PowerLevels)
      → c ≡ power_levels new
      → get_type c ≡ "m.room.power_levels"
  unfolding get_type
  levels_kind c new h = ap get_type h

  abbrev AllowedAs : VersionedPdu J → State → PowerLevels → String → Type 0
  AllowedAs pdu st levels kind =
      if kind == "m.room.third_party_invite"
      then Levels.invite levels ≤ Levels.get_user_level levels (sender pdu)
      else (Levels.get_event_level levels kind (is_some (state_key pdu))
          ≤ Levels.get_user_level levels (sender pdu))
        × (foreign_key is_server_name r (sender pdu) (state_key pdu) ≡ false)
        × (check_content is_server_name r pdu st levels (event_content pdu) ≡ ok pass)

  allowed_levels :
      (pdu : VersionedPdu J) (st : State) (levels : PowerLevels)
      → AllowedAs pdu st levels "m.room.power_levels"
      → (Levels.get_event_level levels "m.room.power_levels" (is_some (state_key pdu))
          ≤ Levels.get_user_level levels (sender pdu))
        × (check_content is_server_name r pdu st levels (event_content pdu) ≡ ok pass)
  unfolding string_eq
  allowed_levels pdu st levels (level, _, allowed) = (level, allowed)

  change_NoEscalation :
      (pdu : VersionedPdu J) (st : State) (old new : PowerLevels) (own : Option Membership)
      (current : String)
      → event_content pdu ≡ power_levels new
      → get st "m.room.power_levels" "" ≡ some current
      → membership_in is_server_name r st (sender pdu).inner ≡ ok own
      → check_other is_server_name r pdu st old ≡ ok pass
      → (own ≡ some Membership.join)
        × (Levels.get_event_level old "m.room.power_levels" (is_some (state_key pdu))
            ≤ Levels.get_user_level old (sender pdu))
        × NoEscalation (sender pdu) (Levels.get_user_level old (sender pdu)) old new
  change_NoEscalation pdu st old new own current c has joined h =
      let (present, rest) = (check_other_tests is_server_name r pdu st old own joined).0 h in
      let kind = levels_kind (event_content pdu) new c in
      let (level, allowed) = allowed_levels pdu st old (subst (AllowedAs pdu st old) kind rest) in
      let content = sym (ap (check_content is_server_name r pdu st old) c) ∙ allowed in
      (
        present,
        level,
        levels_denied-NoEscalation (sender pdu) (Levels.get_user_level old (sender pdu)) old new
            (levels_pass pdu st old new current has content),
      )

  -- A change of power levels that passes the whole check, in a state that has power levels, comes
  -- from a member of the room whose level reaches what such an event needs, and is without
  -- escalation above that level.
  pub auth_check_v1-NoEscalation :
      (pdu : VersionedPdu J) (st : State) (old new : PowerLevels) (own : Option Membership)
      (current : String)
      → event_content pdu ≡ power_levels new
      → get st "m.room.power_levels" "" ≡ some current
      → current_levels is_server_name r st ≡ ok old
      → membership_in is_server_name r st (sender pdu).inner ≡ ok own
      → auth_check_v1 is_server_name r pdu st ≡ ok pass
      → (own ≡ some Membership.join)
        × (Levels.get_event_level old "m.room.power_levels" (is_some (state_key pdu))
            ≤ Levels.get_user_level old (sender pdu))
        × NoEscalation (sender pdu) (Levels.get_user_level old (sender pdu)) old new
  auth_check_v1-NoEscalation pdu st old new own current c has levels joined h =
      change_NoEscalation pdu st old new own current c has joined
        (change_pass pdu st old new c levels h)
