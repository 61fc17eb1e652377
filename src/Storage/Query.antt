-- ===== src/Storage/Query.antt =====
-- storage/mod.rs: profiles, batches, and event queries with the test that an event matches.
pub mod Matching
mod Tests
use kerux.Prelude.{ℕ, String, Bool, true, false, ◌&&◌, not, Option, none, some, List, [], ◌∷◌}
use kerux.Prelude.Tests.{if◌then◌else◌}
use kerux.Prelude.Equality.{Eq, ◌==◌, string_eq, option_eq}
use kerux.Prelude.Lists.{is_empty, contains}
use kerux.Prelude.Maps.{HashMap, HashSet}
use kerux.Errors.{Outcome, ok, panic}
use kerux.Mxid.{MatrixId, mxid_eq}
use kerux.Events.Content.{Serde, get_type, content_as_json}
use kerux.Events.Pdu.{VersionedPdu, event_content, sender, state_key}

pub record UserProfile : Type 0 where
  pub avatar_url : Option String
  pub displayname : Option String

abbrev pub default_profile : UserProfile
default_profile = record { avatar_url = none; displayname = none }

pub record Batch : Type 0 where
  pub rooms : HashMap String ℕ
  pub invites : HashSet String

abbrev pub default_batch : Batch
default_batch = record { rooms = []; invites = [] }

pub data QueryType : Type 0 where
  timeline : ℕ → Option ℕ → QueryType
  state : Option ℕ → List String → List String → QueryType

pub record EventQuery (J : Type 0) : Type 0 where
  pub query_type : QueryType
  pub room_id : String
  pub senders : List MatrixId
  pub not_senders : List MatrixId
  pub types : List String
  pub not_types : List String
  pub contains_json : Option J

unfoldable pub is_timeline : QueryType → Bool
is_timeline (timeline from to) = true
is_timeline (state at keys not_keys) = false

pub is_state : QueryType → Bool
is_state (state at keys not_keys) = true
is_state (timeline from to) = false

-- A list to include and a list to exclude: exclusion comes first, and an empty list to include
-- includes everything.
abbrev pub admits {ℓ} : {A : Type ℓ} ⦃e : Eq A⦄ → List A → List A → A → Bool
admits included excluded a =
    if contains excluded a
    then false
    else if not (is_empty included) && not (contains included a)
    then false
    else true

-- The first block of `matches`: a state query wants a state key, and tests it.
abbrev pub key_matches : QueryType → Option String → Bool
key_matches (timeline from to) key = true
key_matches (state at keys not_keys) none = false
key_matches (state at keys not_keys) (some k) = admits keys not_keys k

module _ {J : Type 0} (S : Serde J) where
  -- The loop over the fields of `contains_json`.
  unfoldable pub fields_match : List (String × J) → J → Bool
  fields_match [] json = true
  fields_match ((key, value) ∷ fields) json =
      ◌==◌ ⦃e = option_eq ⦃e = S.json_eq⦄⦄ (S.get json key) (some value) && fields_match fields json

  -- The last block of `matches`; `contains_json` has to be an object.
  unfoldable pub json_matches : Option J → VersionedPdu J → Outcome Bool
  json_matches none pdu = ok true
  json_matches (some value) pdu = elim (S.as_object value) [
    | none ↦ panic
    | some fields ↦ ok (fields_match fields (content_as_json S (event_content pdu)))
  ]

  -- `EventQuery::matches`
  unfoldable pub matches : EventQuery J → VersionedPdu J → Outcome Bool
  matches q pdu =
      if not (key_matches q.query_type (state_key pdu))
      then ok false
      else if not (admits q.senders q.not_senders (sender pdu))
      then ok false
      else if not (admits q.types q.not_types (get_type (event_content pdu)))
      then ok false
      else json_matches q.contains_json pdu
