-- ===== src/Validate/Auth/Members.antt =====
-- validate/auth.rs: exactly which membership events are allowed. Each theorem takes what the
-- state shows (memberships and join rule) as its hypotheses.
use kerux.Prelude.{◌≤◌, ◌<◌, String, ◌≡◌, ◌≢◌, ◌↔◌, refl, ◌⊎◌, inl, inr, Bool}
use kerux.Prelude.{true, false, Option, some, List, [], ◌∷◌, arith}
use kerux.Prelude.Tests.{if◌then◌else◌, Bool-cases}
use kerux.Prelude.Equality.{◌==◌, string_eq, option_eq, ==-eq, ==-ne}
use kerux.Errors.{ok}
use kerux.Mxid.{MatrixId, mxid_eq, valid, try_from}
use kerux.Events.Room.{JoinRule, Membership, PowerLevels, membership_eq, join_rule_eq}
use kerux.Events.Levels
use kerux.Events.Pdu.{VersionedPdu, pass, sender, state_key}
use kerux.Events.Pdu.{prev_events}
use kerux.Storage.Reader.{Reader}
use kerux.State.{State}
use kerux.Validate.Auth.{join_by_prev, by_join_rule}
use kerux.Validate.Auth.{membership_in, join_rule_in, check_join}
use kerux.Validate.Auth.{check_other_join, check_invite, check_leave, check_kick, check_ban}

abbrev is_single {ℓ} : {A : Type ℓ} → List A → Bool
is_single (x ∷ []) = true
is_single _ = false

-- A room that is public, or that takes invitations where the user has one or is in it.
abbrev pub Admits : Option JoinRule → Option Membership → Type 0
Admits rule m =
    (rule ≡ some JoinRule.public)
    ⊎ ((rule ≡ some JoinRule.invite) × ((m ≡ some Membership.join) ⊎ (m ≡ some Membership.invite)))

module _ {J : Type 0} (is_server_name : String → Bool) (r : Reader J) where
  join_by_prev_several :
      (pdu : VersionedPdu J) (st : State) (prevs : List String)
      → is_single prevs ≡ false
      → join_by_prev is_server_name r pdu st prevs ≡ check_other_join is_server_name r pdu st
  join_by_prev_several pdu st [] h = refl
  join_by_prev_several pdu st (p ∷ []) h = cc
  join_by_prev_several pdu st (p ∷ q ∷ prevs) h = refl

  by_join_rule_iff :
      (rule : Option JoinRule) (m : Option Membership)
      → (by_join_rule is_server_name r rule m ≡ pass) ↔ Admits rule m
  by_join_rule_iff rule m = ground arith

  pub check_other_join_iff :
      (pdu : VersionedPdu J) (st : State) (m : Option Membership) (rule : Option JoinRule)
      → membership_in is_server_name r st (sender pdu).inner ≡ ok m
      → join_rule_in is_server_name r st ≡ ok rule
      → (check_other_join is_server_name r pdu st ≡ ok pass)
        ↔ ((m ≢ some Membership.ban) × Admits rule m)
  unfolding check_other_join
  check_other_join_iff pdu st m rule member rules =
      let (to, from) = by_join_rule_iff rule m in
      elim (Bool-cases (m == some Membership.ban)) [
        | inl banned ↦ (
          λ h. ground arith,
          λ (free, admits). absurd (free (==-eq m (some Membership.ban) banned)),
        )
        | inr free ↦ (
          λ h. (==-ne m (some Membership.ban) free, to (ground arith)),
          λ (_, admits). ground (arith, from admits),
        )
      ]

  -- With no or with several predecessors, a join is allowed exactly if the user joins in their own
  -- name, is not banned, and the join rule admits them.
  pub check_join_iff :
      (pdu : VersionedPdu J) (st : State) (m : Option Membership) (rule : Option JoinRule)
      → is_single (prev_events pdu) ≡ false
      → membership_in is_server_name r st (sender pdu).inner ≡ ok m
      → join_rule_in is_server_name r st ≡ ok rule
      → (check_join is_server_name r pdu st ≡ ok pass)
        ↔ ((state_key pdu ≡ some (sender pdu).inner) × (m ≢ some Membership.ban) × Admits rule m)
  unfolding check_join
  check_join_iff pdu st m rule several member rules =
      let (to, from) = check_other_join_iff pdu st m rule member rules in
      let same = join_by_prev_several pdu st (prev_events pdu) several in
      elim (Bool-cases (state_key pdu == some (sender pdu).inner)) [
        | inl own ↦ (
          λ h.
              let (free, admits) = to (ground arith) in
              (==-eq (state_key pdu) (some (sender pdu).inner) own, free, admits),
          λ (_, free, admits). ground (arith, from (free, admits)),
        )
        | inr other ↦ (
          λ h. absurd (ground arith),
          λ (own, _, _). absurd (==-ne (state_key pdu) (some (sender pdu).inner) other own),
        )
      ]

  -- An invitation is allowed exactly if the sender is in the room, the invited user is neither in
  -- it nor banned from it, and the sender's level reaches the level for invitations.
  pub check_invite_iff :
      (pdu : VersionedPdu J) (st : State) (levels : PowerLevels) (target : String)
      (own other : Option Membership)
      → state_key pdu ≡ some target
      → membership_in is_server_name r st (sender pdu).inner ≡ ok own
      → membership_in is_server_name r st target ≡ ok other
      → (check_invite is_server_name r pdu st levels ≡ ok pass) ↔ (
          (own ≡ some Membership.join)
          × (other ≢ some Membership.join)
          × (other ≢ some Membership.ban)
          × (Levels.invite levels ≤ Levels.get_user_level levels (sender pdu)))
  unfolding check_invite
  check_invite_iff pdu st levels target own other key member there = ground arith

  -- A ban is allowed exactly if the sender is in the room, has the level for bans, and is above the
  -- banned user, whose identifier is well formed.
  pub check_ban_iff :
      (pdu : VersionedPdu J) (st : State) (levels : PowerLevels) (target : String) (id : MatrixId)
      (own : Option Membership)
      → state_key pdu ≡ some target
      → try_from is_server_name target ≡ valid id
      → membership_in is_server_name r st (sender pdu).inner ≡ ok own
      → (check_ban is_server_name r pdu st levels ≡ ok pass) ↔ (
          (own ≡ some Membership.join)
          × (Levels.ban levels ≤ Levels.get_user_level levels (sender pdu))
          × (Levels.get_user_level levels id < Levels.get_user_level levels (sender pdu)))
  unfolding check_ban
  check_ban_iff pdu st levels target id own key named member = ground arith

  -- Leaving is allowed exactly to a user who is in the room or invited. Removing another user is
  -- allowed exactly if the sender is in the room, has the level for kicks and is above the other
  -- user, and, where that user is banned, has the level for bans too.
  pub check_leave_iff :
      (pdu : VersionedPdu J) (st : State) (levels : PowerLevels) (target : String) (id : MatrixId)
      (own other : Option Membership)
      → state_key pdu ≡ some target
      → try_from is_server_name target ≡ valid id
      → membership_in is_server_name r st (sender pdu).inner ≡ ok own
      → membership_in is_server_name r st target ≡ ok other
      → (check_leave is_server_name r pdu st levels ≡ ok pass) ↔ (
          if target == (sender pdu).inner
          then (own ≡ some Membership.join) ⊎ (own ≡ some Membership.invite)
          else (own ≡ some Membership.join)
            × ((other ≢ some Membership.ban)
                ⊎ (Levels.ban levels ≤ Levels.get_user_level levels (sender pdu)))
            × (Levels.kick levels ≤ Levels.get_user_level levels (sender pdu))
            × (Levels.get_user_level levels id < Levels.get_user_level levels (sender pdu)))
  unfolding check_leave check_kick
  check_leave_iff pdu st levels target id own other key named member there = ground arith
