-- ===== src/Util/AddEvent/AuthEvents.antt =====
-- util/storage.rs and state/mod.rs: the auth events that the server gives a new event, against the
-- keys that the state resolver asks for.
use kerux.Prelude.{String, ◌≡◌, Bool, true, false, ◌||◌, Option, none, some}
use kerux.Prelude.{List, [], ◌∷◌, ◌++◌, arith}
use kerux.Prelude.Equality.{◌==◌, string_eq, pair_eq, option_eq}
use kerux.Prelude.Lists.{contains, any, contains-append}
use kerux.Prelude.Maps.{HashSet, set_insert}
use kerux.Errors.{ok, >>=-eq-ok}
use kerux.Events.Room.{membership_eq}
use kerux.Events.Content.{EventContent, member, get_type}
use kerux.Events.Pdu.{VersionedPdu, event_content, state_key, sender}
use kerux.State.{State, get, expect}
use kerux.State.Resolver.{auth_types_for_event, member_types}
use kerux.Util.NewEvent.{NewEvent, calc_auth_events, pushed, member_auth_events}

abbrev create_key : HashSet (String × String)
create_key = ("m.room.create", "") ∷ []

contains-pushed : (o : Option String) (id : String) → contains (pushed o) id ≡ (o == some id)
contains-pushed none id = ground arith
contains-pushed (some x) id = ground arith

any-contains :
    (p : String × String → Bool) (k : String × String) (s : HashSet (String × String))
    → contains s k ≡ true
    → p k ≡ true
    → any p s ≡ true
any-contains p k [] h pk = cc
any-contains p k (x ∷ s) h pk = ground (arith, any-contains p k s)

any-set_insert :
    (p : String × String → Bool) (k : String × String) (s : HashSet (String × String))
    → any p (set_insert k s) ≡ (p k || any p s)
unfolding set_insert
any-set_insert p k s = ground (arith, any-contains p k s)

-- The state has the event at the key.
abbrev pub has_event : State → String → String × String → Bool
has_event st id (kind, key) = get st kind key == some id

module _ {J : Type 0} where
  member_part :
      (c : EventContent J) (pdu : VersionedPdu J) (own : Option String) (st : State)
      (rest : List String) (before keys : HashSet (String × String)) (id : String)
      → state_key pdu ≡ own
      → member_auth_events c own st ≡ ok rest
      → member_types pdu c before ≡ ok keys
      → any (has_event st id) keys ≡ (contains rest id || any (has_event st id) before)
  member_part (member c) pdu none st rest before keys id k h types = absurd (ground arith)
  member_part (member c) pdu (some target) st rest before keys id k h types =
      let rules = get st "m.room.join_rules" "" in
      let with_target = set_insert ("m.room.member", target) before in
      ground (
        arith,
        any-set_insert (has_event st id) ("m.room.member", target) before,
        any-set_insert (has_event st id) ("m.room.join_rules", "") with_target,
        contains-pushed (get st "m.room.member" target) id,
        contains-pushed rules id,
        contains-append (pushed (get st "m.room.member" target)) (pushed rules) id,
        contains-append (pushed (get st "m.room.member" target)) [] id,
      )
  member_part _ pdu own st rest before keys id k h types = ground arith

  -- The auth events of a new event are the events that the state has at the keys that the resolver
  -- takes to matter to the event's authorization.
  pub contains-calc_auth_events :
      (event : NewEvent J) (pdu : VersionedPdu J) (st : State) (ids : List String)
      (keys : HashSet (String × String)) (id : String)
      → event_content pdu ≡ event.event_content
      → sender pdu ≡ event.sender
      → state_key pdu ≡ event.state_key
      → (get_type event.event_content == "m.room.create") ≡ false
      → calc_auth_events event st ≡ ok ids
      → auth_types_for_event pdu ≡ ok keys
      → contains ids id ≡ any (has_event st id) keys
  unfolding calc_auth_events auth_types_for_event
  contains-calc_auth_events event pdu st ids keys id c s k other h types =
      let (created, has, h1) = >>=-eq-ok (expect (get st "m.room.create" "")) _ h in
      let (rest, own, h2) =
        >>=-eq-ok (member_auth_events event.event_content event.state_key st) _ h1 in
      let levels = get st "m.room.power_levels" "" in
      let joined = get st "m.room.member" event.sender.inner in
      let second = set_insert ("m.room.member", event.sender.inner) create_key in
      ground (
        arith,
        member_part event.event_content pdu event.state_key st rest
            (set_insert ("m.room.power_levels", "") second) keys id k own,
        any-set_insert (has_event st id) ("m.room.member", event.sender.inner) create_key,
        any-set_insert (has_event st id) ("m.room.power_levels", "") second,
        contains-append (pushed levels) (pushed joined ++ rest) id,
        contains-append (pushed joined) rest id,
        contains-pushed levels id,
        contains-pushed joined id,
      )
