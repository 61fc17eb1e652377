-- ===== src/Validate/Auth.antt =====
-- validate/auth.rs: `auth_check_v1`, the rules by which an event is allowed in a room's state. The
-- events are read through a `Reader`; whether a text is a server name is a parameter, as in
-- util/mxid.rs. Every early `return` is a branch.
pub mod PowerChanges
pub mod Joins
pub mod Members
pub mod Others
pub mod Rules
mod Tests
use kerux.Prelude.{ℕ, String, Bool, true, false, ◌&&◌, ◌||◌, not, Option, none, some, List, [], ◌∷◌}
use kerux.Prelude.Tests.{ltb, leb, eqb, is_some, if◌then◌else◌}
use kerux.Prelude.Equality.{Eq, ◌==◌, string_eq, pair_eq, option_eq, nat_eq}
use kerux.Prelude.Lists.{is_empty}
use kerux.Prelude.Maps.{HashMap, lookup, insert, contains_key}
use kerux.Errors.{Outcome, ok, panic, ◌>>=◌}
use kerux.Mxid.{MatrixId, mxid_eq, domain, Checked, valid, invalid, try_from}
use kerux.Mxid.Text.{after_first, starts_with_char}
use kerux.Events.Room.{Create, JoinRule, JoinRules, PowerLevels, Membership, Member, unwrap_or}
use kerux.Events.Room.{membership_eq, join_rule_eq}
use kerux.Events.Levels
use kerux.Events.Content.{EventContent, create, power_levels, member, redaction, get_type}
use kerux.Events.Pdu.{VersionedPdu, StoredPdu, AuthStatus, pass, fail, event_content, sender}
use kerux.Events.Pdu.{state_key, room_id, prev_events, auth_events}
use kerux.Storage.Reader.{Reader}
use kerux.Validate.Changes.{levels_denied}
use kerux.State.{State, get, get_content, expect, as_create, as_member, as_join_rules}
use kerux.State.{as_power_levels}

-- `AuthStatus::is_pass`
unfoldable pub is_pass : AuthStatus → Bool
is_pass pass = true
is_pass fail = false

abbrev passes_if : Bool → Outcome AuthStatus
passes_if true = ok pass
passes_if false = ok fail

module _ {J : Type 0} (is_server_name : String → Bool) (r : Reader J) where
  -- `state.get_content::<Member>(db, user).await?.map(|c| c.membership)`
  unfoldable pub membership_in : State → String → Outcome (Option Membership)
  membership_in st user = do
    content ← get_content r st "m.room.member" as_member user
    ok (elim content [ none ↦ none | some c ↦ some c.membership ])

  abbrev pub join_rule_in : State → Outcome (Option JoinRule)
  join_rule_in st = do
    content ← get_content r st "m.room.join_rules" as_join_rules ""
    ok (elim content [ none ↦ none | some c ↦ some c.join_rule ])

  -- A create event: the first of its room, by a user of the room's server.
  unfoldable pub check_create : VersionedPdu J → Outcome AuthStatus
  check_create pdu = if not (is_empty (prev_events pdu)) then ok fail else do
    room_domain ← expect (after_first b':' (room_id pdu))
    sender_domain ← expect (domain (sender pdu))
    passes_if (sender_domain == room_domain)

  -- The loop that fills the map of the auth events, by type and state key.
  unfoldable pub load_auth_events :
      String
      → List String
      → HashMap (String × String) (StoredPdu J)
      → Outcome (HashMap (String × String) (StoredPdu J))
  load_auth_events room [] loaded = ok loaded
  load_auth_events room (id ∷ ids) loaded = do
    found ← r.get_pdu room id
    event ← expect found
    key ← expect (state_key event.inner)
    load_auth_events room ids (insert (get_type (event_content event.inner), key) event loaded)

  -- `_` of the source's `match`, and its first arm for the rules of a room.
  abbrev by_join_rule : Option JoinRule → Option Membership → AuthStatus
  by_join_rule (some JoinRule.invite) (some Membership.join) = pass
  by_join_rule (some JoinRule.invite) (some Membership.invite) = pass
  by_join_rule (some JoinRule.public) _ = pass
  by_join_rule _ _ = fail

  -- A join right after another event: only the creator's, right after the create event.
  unfoldable pub check_first_join : VersionedPdu J → String → Outcome AuthStatus
  check_first_join pdu prev = do
    found ← r.get_pdu (room_id pdu) prev
    event ← expect found
    content ← expect (as_create (event_content event.inner))
    passes_if (sender pdu == content.creator)

  unfoldable pub check_other_join : VersionedPdu J → State → Outcome AuthStatus
  check_other_join pdu st = do
    membership ← membership_in st (sender pdu).inner
    (if membership == some Membership.ban
        then ok fail
        else do join_rule ← join_rule_in st; ok (by_join_rule join_rule membership))

  abbrev join_by_prev : VersionedPdu J → State → List String → Outcome AuthStatus
  join_by_prev pdu st (prev ∷ []) = check_first_join pdu prev
  join_by_prev pdu st _ = check_other_join pdu st

  unfoldable pub check_join : VersionedPdu J → State → Outcome AuthStatus
  check_join pdu st =
      if not (state_key pdu == some (sender pdu).inner)
      then ok fail
      else join_by_prev pdu st (prev_events pdu)

  unfoldable pub check_invite : VersionedPdu J → State → PowerLevels → Outcome AuthStatus
  check_invite pdu st levels = do
    sender_membership ← membership_in st (sender pdu).inner
    (if not (sender_membership == some Membership.join) then ok fail else do
      target ← expect (state_key pdu)
      target_membership ← membership_in st target
      (if target_membership == some Membership.join || target_membership == some Membership.ban
          then ok fail
          else passes_if (leb (Levels.invite levels) (Levels.get_user_level levels (sender pdu)))))

  -- `MatrixId::try_from(target_user_id).expect(..)`
  abbrev target_id : String → Outcome MatrixId
  target_id target = elim (try_from is_server_name target) [ valid m ↦ ok m | invalid e ↦ panic ]

  -- Taking part back, or kicking somebody else.
  unfoldable pub check_kick :
      VersionedPdu J → State → PowerLevels → Option Membership → Outcome AuthStatus
  check_kick pdu st levels sender_membership =
      if not (sender_membership == some Membership.join) then ok fail else do
        target ← expect (state_key pdu)
        target_membership ← membership_in st target
        (if target_membership == some Membership.ban
              && ltb (Levels.get_user_level levels (sender pdu)) (Levels.ban levels)
            then ok fail
            else do
              id ← target_id target
              passes_if (
                  leb (Levels.kick levels) (Levels.get_user_level levels (sender pdu))
                  && ltb (Levels.get_user_level levels id)
                      (Levels.get_user_level levels (sender pdu))))

  unfoldable pub check_leave : VersionedPdu J → State → PowerLevels → Outcome AuthStatus
  check_leave pdu st levels = do
    sender_membership ← membership_in st (sender pdu).inner
    (if state_key pdu == some (sender pdu).inner
        then passes_if (
            sender_membership == some Membership.join
            || sender_membership == some Membership.invite)
        else check_kick pdu st levels sender_membership)

  unfoldable pub check_ban : VersionedPdu J → State → PowerLevels → Outcome AuthStatus
  check_ban pdu st levels = do
    sender_membership ← membership_in st (sender pdu).inner
    (if not (sender_membership == some Membership.join) then ok fail else do
      target ← expect (state_key pdu)
      id ← target_id target
      passes_if (
          leb (Levels.ban levels) (Levels.get_user_level levels (sender pdu))
          && ltb (Levels.get_user_level levels id) (Levels.get_user_level levels (sender pdu))))

  unfoldable pub check_member :
      VersionedPdu J → State → PowerLevels → Membership → Outcome AuthStatus
  check_member pdu st levels Membership.join = check_join pdu st
  check_member pdu st levels Membership.invite = check_invite pdu st levels
  check_member pdu st levels Membership.leave = check_leave pdu st levels
  check_member pdu st levels Membership.ban = check_ban pdu st levels
  check_member pdu st levels Membership.knock = ok fail

  -- The rules for a change of power levels; where the state has no such event, any is allowed.
  unfoldable pub check_levels :
      VersionedPdu J → State → PowerLevels → PowerLevels → Outcome AuthStatus
  check_levels pdu st old new =
      if not (is_some (get st "m.room.power_levels" ""))
      then ok pass
      else passes_if
          (not (levels_denied (sender pdu) (Levels.get_user_level old (sender pdu)) old new))

  -- The last rules, by the content of the event.
  unfoldable pub check_content :
      VersionedPdu J → State → PowerLevels → EventContent J → Outcome AuthStatus
  check_content pdu st levels (power_levels new) = check_levels pdu st levels new
  check_content pdu st levels (redaction c) =
      passes_if (leb (Levels.redact levels) (Levels.get_user_level levels (sender pdu)))
  check_content pdu st levels _ = ok pass

  -- A state key that starts with '@' names a user, who has to be the sender.
  abbrev pub foreign_key : MatrixId → Option String → Bool
  foreign_key user none = false
  foreign_key user (some key) = starts_with_char b'@' key && not (key == user.inner)

  unfoldable pub check_other : VersionedPdu J → State → PowerLevels → Outcome AuthStatus
  check_other pdu st levels = do
    sender_membership ← membership_in st (sender pdu).inner
    (if not (sender_membership == some Membership.join)
        then ok fail
        else if get_type (event_content pdu) == "m.room.third_party_invite"
        then passes_if (leb (Levels.invite levels) (Levels.get_user_level levels (sender pdu)))
        else if ltb (Levels.get_user_level levels (sender pdu))
            (Levels.get_event_level levels (get_type (event_content pdu)) (is_some (state_key pdu)))
        then ok fail
        else if foreign_key (sender pdu) (state_key pdu)
        then ok fail
        else check_content pdu st levels (event_content pdu))

  -- The levels that hold: those of the state, or the defaults by the room's creator.
  unfoldable pub current_levels : State → Outcome PowerLevels
  current_levels st = do
    found ← get_content r st "m.room.create" as_create ""
    room ← expect found
    levels ← get_content r st "m.room.power_levels" as_power_levels ""
    ok (unwrap_or levels (Levels.no_event_default_levels room.creator))

  abbrev by_content : VersionedPdu J → State → PowerLevels → EventContent J → Outcome AuthStatus
  by_content pdu st levels (member content) = check_member pdu st levels content.membership
  by_content pdu st levels _ = check_other pdu st levels

  unfoldable pub check_with_auth_events : VersionedPdu J → State → Outcome AuthStatus
  check_with_auth_events pdu st = do
    events ← load_auth_events (room_id pdu) (auth_events pdu) []
    (if not (contains_key ("m.room.create", "") events)
        then ok fail
        else if get_type (event_content pdu) == "m.room.aliases" && not (is_some (state_key pdu))
        then ok fail
        else do levels ← current_levels st; by_content pdu st levels (event_content pdu))

  abbrev by_kind : VersionedPdu J → State → EventContent J → Outcome AuthStatus
  by_kind pdu st (create c) = check_create pdu
  by_kind pdu st _ = check_with_auth_events pdu st

  unfoldable pub auth_check_v1 : VersionedPdu J → State → Outcome AuthStatus
  auth_check_v1 pdu st = by_kind pdu st (event_content pdu)
