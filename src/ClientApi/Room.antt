-- ===== src/ClientApi/Room.antt =====
-- client_api/room.rs: creating a room, inviting and joining.
use kerux.Prelude.{String, Bool, true, false, Option, none, some, List, [], ◌∷◌}
use kerux.Prelude.Equality.{◌==◌, string_eq}
use kerux.Prelude.Maps.{HashMap}
use kerux.Prelude.Ints.{ℤ}
use kerux.Errors.{unsupported_room_version}
use kerux.Exec.{Exec, reads, pure, raise, expect, ◌>>=◌, ◌>>◌}
use kerux.Mxid.{MatrixId, localpart}
use kerux.Events.Room.{JoinRule, HistoryVisibilityType, GuestAccessType, PowerLevels}
use kerux.Events.Room.{Membership, unwrap_or}
use kerux.Events.Levels.{default_levels}
use kerux.Events.Content.{EventContent, create, member, power_levels, join_rules, new}
use kerux.Events.Content.{history_visibility, guest_access, name, topic}
use kerux.Storage.Query.{UserProfile, default_profile}
use kerux.Storage.Mem.{Uuid}
use kerux.Storage.Mem.Accounts
use kerux.Util.NewEvent.{NewEvent}
use kerux.Util.AddEvent.{Server, add_event}
use kerux.ClientApi.{Context, authenticate, own_id, signed_in}

pub data RoomVisibility : Type 0 where
  public private : RoomVisibility

pub data Preset : Type 0 where
  private_chat trusted_private_chat public_chat : Preset

pub record StateEvent (J : Type 0) : Type 0 where
  pub ty : String
  pub state_key : String
  pub content : J

pub record CreateRoomRequest (J : Type 0) : Type 0 where
  pub visibility : RoomVisibility
  pub name : Option String
  pub topic : Option String
  pub invite : Option (List String)
  pub room_version : Option String
  pub creation_content : Option (HashMap String J)
  pub initial_state : Option (List (StateEvent J))
  pub preset : Option Preset
  pub is_direct : Option Bool
  pub power_level_content_override : Option PowerLevels

abbrev pub default_preset : RoomVisibility → Preset
default_preset private = private_chat
default_preset public = public_chat

abbrev pub join_rule_of : Preset → JoinRule
join_rule_of public_chat = JoinRule.public
join_rule_of _ = JoinRule.invite

abbrev pub guest_access_of : Preset → GuestAccessType
guest_access_of public_chat = GuestAccessType.forbidden
guest_access_of _ = GuestAccessType.can_join

module _ {J : Type 0} where
  -- The events that the handlers build.
  abbrev pub state_event : MatrixId → String → EventContent J → NewEvent J
  state_event user_id key content = record {
    event_content = content;
    sender = user_id;
    state_key = some key;
    redacts = none;
    unsigned = none;
  }

  abbrev pub membership_event :
      MatrixId → String → Membership → UserProfile → Option Bool → NewEvent J
  membership_event user_id target membership profile is_direct = state_event user_id target (
      member (record {
        avatar_url = profile.avatar_url;
        displayname = profile.displayname;
        membership = membership;
        is_direct = is_direct;
      }))

  module _ (cx : Context J) (now : ℤ) where
    abbrev pub add : String → NewEvent J → Exec (Server J) String
    add room event = add_event cx.serde cx.hashing cx.is_server_name cx.rounds now room event

    abbrev add_if : String → Option (NewEvent J) → Exec (Server J) (Unit {0})
    add_if room none = pure tt
    add_if room (some event) = do add room event; pure tt

    pub add_initial_state : String → MatrixId → List (StateEvent J) → Exec (Server J) (Unit {0})
    add_initial_state room user_id [] = pure tt
    add_initial_state room user_id (event ∷ events) = do
      content ← reads (λ _. new cx.serde event.ty event.content)
      add room (state_event user_id event.state_key content)
      add_initial_state room user_id events

    pub add_invites : String → MatrixId → Option Bool → List String → Exec (Server J) (Unit {0})
    add_invites room user_id is_direct [] = pure tt
    add_invites room user_id is_direct (invitee ∷ invitees) = do
      add room (membership_event user_id invitee Membership.invite default_profile is_direct)
      add_invites room user_id is_direct invitees

    -- What follows the create event.
    pub fill_room : String → String → MatrixId → CreateRoomRequest J → Exec (Server J) (Unit {0})
    unfolding add_initial_state add_invites
    fill_room room username user_id req = do
      found ← reads (λ (s : Server J). Accounts.get_profile username s.db)
      profile ← expect found
      add room (membership_event user_id user_id.inner Membership.join profile req.is_direct)
      add room (
          state_event user_id ""
            (power_levels (unwrap_or req.power_level_content_override default_levels)))
      let preset = unwrap_or req.preset (default_preset req.visibility)
      add room (state_event user_id "" (join_rules (record { join_rule = join_rule_of preset })))
      add room (
          state_event user_id ""
            (history_visibility (record { history_visibility = HistoryVisibilityType.shared })))
      add room (
          state_event user_id ""
            (guest_access (record { guest_access = some (guest_access_of preset) })))
      add_initial_state room user_id (unwrap_or req.initial_state [])
      add_if room (elim req.name [
        | none ↦ none
        | some n ↦ some (state_event user_id "" (name (record { name = some n })))
      ])
      add_if room (elim req.topic [
        | none ↦ none
        | some t ↦ some (state_event user_id "" (topic (record { topic = some t })))
      ])
      add_invites room user_id req.is_direct (unwrap_or req.invite [])

    abbrev pub supported_only : Bool → Exec (Server J) (Unit {0})
    supported_only true = pure tt
    supported_only false = raise unsupported_room_version

    -- `room` is the identifier that the handler makes of a random number.
    unfoldable pub create_room : Uuid → String → CreateRoomRequest J → Exec (Server J) String
    unfolding fill_room
    create_room token room req = do
      username ← authenticate token
      user_id ← own_id cx username
      let room_version = unwrap_or req.room_version "4"
      supported_only (room_version == "4")
      add room (
          state_event user_id "" (
            create (record {
              creator = user_id;
              room_version = some room_version;
              predecessor = none;
              extra = unwrap_or req.creation_content [];
            })))
      fill_room room username user_id req
      pure room

    unfoldable pub invite : Uuid → String → MatrixId → Exec (Server J) (Unit {0})
    invite token room invitee = do
      user_id ← signed_in cx token
      found ← reads (λ (s : Server J). Accounts.get_profile (localpart invitee) s.db)
      add room (
          membership_event user_id invitee.inner Membership.invite (unwrap_or found default_profile)
            (some false))
      pure tt

    unfoldable pub join_by_id_or_alias : Uuid → String → Exec (Server J) String
    join_by_id_or_alias token room = do
      username ← authenticate token
      user_id ← own_id cx username
      found ← reads (λ (s : Server J). Accounts.get_profile username s.db)
      add room (
          membership_event user_id user_id.inner Membership.join (unwrap_or found default_profile)
            (some false))
      pure room
