-- ===== src/Validate/Auth/Joins.antt =====
-- validate/auth.rs: who may join a room, through the whole check.
use kerux.Prelude.{
  String, ◌≡◌, ◌≢◌, ◌⊎◌, inl, inr, refl, Bool, true, Option, none, some, List, [], ◌∷◌,
}
use mathlib.Core.Option.{some-injective}
use kerux.Prelude.{arith, ap, ◌∙◌, subst}
use kerux.Prelude.Tests.{Bool-cases}
use kerux.Prelude.Equality.{◌==◌, ==-eq, option_eq, string_eq, pair_eq}
use kerux.Errors.{ok, ◌>>=◌, >>=-eq-ok, ok-injective}
use kerux.Mxid.{mxid_eq}
use kerux.Events.Room.{Create, JoinRule, Member, Membership, membership_eq}
use kerux.Events.Content.{EventContent, create, member}
use kerux.Events.Pdu.{VersionedPdu, StoredPdu, pass, event_content, sender}
use kerux.Events.Pdu.{state_key, room_id, prev_events, auth_events}
use kerux.Storage.Reader.{Reader}
use kerux.State.{State, expect, as_create}
use kerux.Validate.Auth.{membership_in, join_rule_in, load_auth_events, current_levels}
use kerux.Validate.Auth.{check_first_join, check_other_join, check_join, check_member}
use kerux.Validate.Auth.{
  check_with_auth_events, auth_check_v1, by_kind, by_content, join_by_prev, by_join_rule,
}
use kerux.Validate.Auth.Members.{Admits, check_other_join_iff}

module _ {J : Type 0} (is_server_name : String → Bool) (r : Reader J) where
  -- The join comes right after a create event, which the storage has, and its sender is the creator.
  abbrev pub IsCreators : VersionedPdu J → Type 0
  IsCreators pdu =
      (prev : String) × (event : StoredPdu J) × (content : Create J) × (prev_events pdu ≡ prev ∷ [])
      × (r.get_pdu (room_id pdu) prev ≡ ok (some event))
      × (event_content event.inner ≡ create content)
      × (sender pdu ≡ content.creator)

  -- The state lets the sender in: they are not banned, and the room is public, or takes invitations
  -- and they have one or are in it.
  abbrev pub IsAdmitted : VersionedPdu J → State → Type 0
  IsAdmitted pdu st =
      (m : Option Membership) × (rule : Option JoinRule) × (membership_in is_server_name r st
          (sender pdu).inner
        ≡ ok m)
      × (join_rule_in is_server_name r st ≡ ok rule)
      × (m ≢ some Membership.ban)
      × Admits rule m

  as_create-eq :
      (c : EventContent J) (content : Create J) → as_create c ≡ some content → c ≡ create content
  as_create-eq (create c) content h = ap create (some-injective c content h)
  as_create-eq _ content h = cc

  expect-eq : {A : Type 0} (o : Option A) (a : A) → expect o ≡ ok a → o ≡ some a
  expect-eq none a h = cc
  expect-eq (some b) a h = ap some (ok-injective b a h)

  first_join :
      (pdu : VersionedPdu J) (prev : String)
      → prev_events pdu ≡ prev ∷ []
      → check_first_join is_server_name r pdu prev ≡ ok pass
      → IsCreators pdu
  unfolding check_first_join
  first_join pdu prev single h =
      let (found, f, h1) = >>=-eq-ok (r.get_pdu (room_id pdu) prev) _ h in
      let (event, e, h2) = >>=-eq-ok (expect found) _ h1 in
      let (content, c, h3) = >>=-eq-ok (expect (as_create (event_content event.inner))) _ h2 in
      let own : (sender pdu == content.creator) ≡ true = ground arith in
      (
        prev,
        event,
        content,
        single,
        f ∙ ap ok (expect-eq found event e),
        as_create-eq _ content (expect-eq _ content c),
        ==-eq (sender pdu) content.creator own,
      )

  other_join :
      (pdu : VersionedPdu J) (st : State)
      → check_other_join is_server_name r pdu st ≡ ok pass
      → IsAdmitted pdu st
  unfolding check_other_join
  other_join pdu st h =
      let (m, is_m, h1) = >>=-eq-ok (membership_in is_server_name r st (sender pdu).inner) _ h in
      elim (Bool-cases (m == some Membership.ban)) [
        | inl banned ↦ absurd (ground arith)
        | inr free ↦
            let by_rule : (do
              rule ← join_rule_in is_server_name r st
              ok (by_join_rule is_server_name r rule m))
                ≡ ok pass =
              ground arith in
            let (rule, is_rule, _) = >>=-eq-ok (join_rule_in is_server_name r st) _ by_rule in
            let (unbanned, admits) =
              (check_other_join_iff is_server_name r pdu st m rule is_m is_rule).0 h in
            (m, rule, is_m, is_rule, unbanned, admits)
      ]

  -- The two ways into a room: before its second event, or by its state.
  abbrev pub MayJoin : VersionedPdu J → State → Type 0
  MayJoin pdu st =
      IsCreators pdu ⊎ (((prev : String) → prev_events pdu ≢ prev ∷ []) × IsAdmitted pdu st)

  by_prev :
      (pdu : VersionedPdu J) (st : State) (prevs : List String)
      → prev_events pdu ≡ prevs
      → join_by_prev is_server_name r pdu st prevs ≡ ok pass
      → MayJoin pdu st
  by_prev pdu st (prev ∷ []) e h = inl (first_join pdu prev e h)
  by_prev pdu st [] e h = inr (λ prev single. ground arith, other_join pdu st h)
  by_prev pdu st (_ ∷ _ ∷ _) e h = inr (λ prev single. ground arith, other_join pdu st h)

  is_join :
      (pdu : VersionedPdu J) (st : State)
      → check_join is_server_name r pdu st ≡ ok pass
      → (state_key pdu ≡ some (sender pdu).inner) × MayJoin pdu st
  unfolding check_join
  is_join pdu st h = elim (Bool-cases (state_key pdu == some (sender pdu).inner)) [
    | inl own ↦ (
      ==-eq (state_key pdu) (some (sender pdu).inner) own,
      by_prev pdu st (prev_events pdu) refl (ground arith),
    )
    | inr other ↦ absurd (ground arith)
  ]

  join_checked :
      (pdu : VersionedPdu J) (st : State) (content : Member)
      → event_content pdu ≡ member content
      → content.membership ≡ Membership.join
      → auth_check_v1 is_server_name r pdu st ≡ ok pass
      → check_join is_server_name r pdu st ≡ ok pass
  unfolding auth_check_v1 check_with_auth_events check_member
  join_checked pdu st content c join h =
      let h' = subst (λ x. by_kind is_server_name r pdu st x ≡ ok pass) c h in
      let (events, _, h1) =
        >>=-eq-ok (load_auth_events is_server_name r (room_id pdu) (auth_events pdu) []) _ h' in
      let checked : (current_levels is_server_name r st >>= λ levels.
      by_content is_server_name r pdu st levels (event_content pdu))
          ≡ ok pass =
        ground arith in
      let (levels, _, h2) = >>=-eq-ok (current_levels is_server_name r st) _ checked in
      let h3 = subst (λ x. by_content is_server_name r pdu st levels x ≡ ok pass) c h2 in
      subst (λ m. check_member is_server_name r pdu st levels m ≡ ok pass) join h3

  -- A join that passes the whole check is in its sender's own name. Either it has one predecessor,
  -- a create event in the storage, and the sender is the creator; or it has another number of
  -- predecessors, and in the state the sender is not banned and the room is public, or takes
  -- invitations and has the sender as invited or joined.
  pub auth_check_v1-MayJoin :
      (pdu : VersionedPdu J) (st : State) (content : Member)
      → event_content pdu ≡ member content
      → content.membership ≡ Membership.join
      → auth_check_v1 is_server_name r pdu st ≡ ok pass
      → (state_key pdu ≡ some (sender pdu).inner) × MayJoin pdu st
  auth_check_v1-MayJoin pdu st content c join h =
      is_join pdu st (join_checked pdu st content c join h)
