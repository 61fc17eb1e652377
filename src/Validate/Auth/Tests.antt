-- ===== src/Validate/Auth/Tests.antt =====
-- validate/auth.rs: runs, and the theorems at a concrete room.
use kerux.Prelude.{◌≤◌, ◌<◌, String, ◌≡◌, ◌≢◌, ◌↔◌, ◌⊎◌, refl, true}
use kerux.Prelude.{none, some, [], ◌∷◌, arith}
use kerux.Prelude.Tests.{if◌then◌else◌}
use kerux.Prelude.Equality.{◌==◌, string_eq, pair_eq, option_eq, nat_eq}
use kerux.Errors.{ok}
use kerux.Mxid.{mxid_eq}
use kerux.Events.Room.{Membership, Create, membership_eq, join_rule_eq}
use kerux.Events.Levels
use kerux.Events.Content.{create, power_levels}
use kerux.Events.Pdu.{pass, fail}
use kerux.Events.Pdu.{VersionedPdu, state_key, prev_events}
use kerux.Validate.Auth.{auth_check_v1}
use kerux.Validate.Auth.{check_join, check_invite, check_ban}
use kerux.Validate.Auth.{check_leave}
use kerux.Validate.Auth.PowerChanges.{NoEscalation}
use kerux.Validate.Auth.Rules.{auth_check_v1-NoEscalation, auth_check_v1-create}
use kerux.Storage.Mem.{new_storage}
use kerux.Storage.Reader.{Reader, mem_reader}
use kerux.State.{State}
use kerux.Validate.Auth.Members.{check_join_iff, check_invite_iff, check_ban_iff, check_leave_iff}
use kerux.Validate.Auth.Members.{Admits}
use kerux.Validate.Auth.Joins.{MayJoin, auth_check_v1-MayJoin}
use kerux.Events.Room.{Member}
use kerux.Fixtures.{serde, hashing, room_x, join_pdu}
use kerux.Fixtures.{runs, any_server, reader, alice, bob, create_pdu, change_pdu}
use kerux.Fixtures.{old_levels, new_levels, room_state, make, membership}

change_passes : auth_check_v1 any_server reader change_pdu room_state ≡ ok pass
unfolding runs
change_passes = refl

abbrev home : String
home = "x"

abbrev after_two : VersionedPdu String
after_two =
    make "j" alice (membership Membership.join) (some "@alice:x") ("$c" ∷ "$p" ∷ []) ("$c" ∷ [])

abbrev invites_bob : VersionedPdu String
invites_bob =
    make "i" alice (membership Membership.invite) (some "@bob:x") ("$p" ∷ []) ("$c" ∷ "$p" ∷ [])

not_created : (content : Create String) → power_levels new_levels ≢ create content
not_created content = ground arith

abbrev nothing_stored : Reader String
nothing_stored = mem_reader serde hashing new_storage

abbrev no_state : State
no_state = record { room_id = room_x; map = [] }

auth_check_v1-NoEscalation_example :
    (some Membership.join ≡ some Membership.join)
    × (Levels.get_event_level old_levels "m.room.power_levels" true
        ≤ Levels.get_user_level old_levels alice)
    × NoEscalation alice (Levels.get_user_level old_levels alice) old_levels new_levels
unfolding runs
auth_check_v1-NoEscalation_example =
    auth_check_v1-NoEscalation any_server reader change_pdu room_state old_levels new_levels
      (some Membership.join) "$p" refl refl refl refl change_passes

auth_check_v1-create_example :
    ((auth_check_v1 any_server reader create_pdu room_state ≡ ok pass)
      ↔ ((prev_events create_pdu ≡ []) × (home ≡ home)))
    × ((auth_check_v1 any_server reader create_pdu room_state ≡ ok pass)
        ⊎ (auth_check_v1 any_server reader create_pdu room_state ≡ ok fail))
    × (auth_check_v1 any_server nothing_stored create_pdu no_state
        ≡ auth_check_v1 any_server reader create_pdu room_state)
unfolding runs
auth_check_v1-create_example =
    auth_check_v1-create any_server reader nothing_stored create_pdu room_state no_state
      (record { creator = alice; room_version = some "4"; predecessor = none; extra = [] }) home
      home refl refl refl

check_join_iff_example : (check_join any_server reader after_two room_state ≡ ok pass) ↔ (
    (state_key after_two ≡ some alice.inner)
    × (some Membership.join ≢ some Membership.ban)
    × Admits none (some Membership.join))
unfolding runs
check_join_iff_example =
    check_join_iff any_server reader after_two room_state (some Membership.join) none refl refl refl

abbrev joined : Member
joined = record {
  avatar_url = none;
  displayname = none;
  membership = Membership.join;
  is_direct = none;
}

join_passes : auth_check_v1 any_server reader join_pdu room_state ≡ ok pass
unfolding runs
join_passes = refl

auth_check_v1-MayJoin_example :
    (some "@alice:x" ≡ some alice.inner) × MayJoin any_server reader join_pdu room_state
auth_check_v1-MayJoin_example =
    auth_check_v1-MayJoin any_server reader join_pdu room_state joined refl refl join_passes

check_invite_iff_example :
    (check_invite any_server reader invites_bob room_state old_levels ≡ ok pass) ↔ (
      (some Membership.join ≡ some Membership.join)
      × (none ≢ some Membership.join)
      × (none ≢ some Membership.ban)
      × (Levels.invite old_levels ≤ Levels.get_user_level old_levels alice))
unfolding runs
check_invite_iff_example =
    check_invite_iff any_server reader invites_bob room_state old_levels "@bob:x"
      (some Membership.join) none refl refl refl

check_ban_iff_example :
    (check_ban any_server reader invites_bob room_state old_levels ≡ ok pass) ↔ (
      (some Membership.join ≡ some Membership.join)
      × (Levels.ban old_levels ≤ Levels.get_user_level old_levels alice)
      × (Levels.get_user_level old_levels bob < Levels.get_user_level old_levels alice))
unfolding runs
check_ban_iff_example =
    check_ban_iff any_server reader invites_bob room_state old_levels "@bob:x" bob
      (some Membership.join) refl refl refl

check_leave_iff_example :
    (check_leave any_server reader invites_bob room_state old_levels ≡ ok pass) ↔ (
      if bob.inner == alice.inner
      then (some Membership.join ≡ some Membership.join)
        ⊎ (some Membership.join ≡ some Membership.invite)
      else (some Membership.join ≡ some Membership.join)
        × ((none ≢ some Membership.ban)
            ⊎ (Levels.ban old_levels ≤ Levels.get_user_level old_levels alice))
        × (Levels.kick old_levels ≤ Levels.get_user_level old_levels alice)
        × (Levels.get_user_level old_levels bob < Levels.get_user_level old_levels alice))
unfolding runs
check_leave_iff_example =
    check_leave_iff any_server reader invites_bob room_state old_levels "@bob:x" bob
      (some Membership.join) none refl refl refl refl
