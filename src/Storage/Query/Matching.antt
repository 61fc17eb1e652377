-- ===== src/Storage/Query/Matching.antt =====
-- storage/mod.rs: what `EventQuery::matches` selects.
use kerux.Prelude.{String, ◌≡◌, ◌↔◌, ◌⊎◌, refl, ap, Bool, true, false, ◌||◌}
use kerux.Prelude.{Option, none, some, List, [], ◌∷◌, arith}
use kerux.Prelude.Tests.{is_some}
use kerux.Prelude.Equality.{Eq, string_eq, option_eq}
use kerux.Prelude.Lists.{contains, is_empty, All}
use kerux.Errors.{Outcome, ok}
use kerux.Mxid.{mxid_eq}
use kerux.Events.Content.{Serde, get_type}
use kerux.Events.Pdu.{VersionedPdu, event_content, sender, state_key}
use kerux.Storage.Query.{QueryType, timeline, state, EventQuery, admits, key_matches, fields_match}
use kerux.Storage.Query.{json_matches, matches}

-- A filter of names to include and to exclude: excluded names never pass, also if they are listed
-- to be included, and an empty list to include lets all others pass.
abbrev pub Passes {ℓ} : {A : Type ℓ} ⦃e : Eq A⦄ → List A → List A → A → Type 0
Passes included excluded a =
    (contains excluded a ≡ false) × ((is_empty included || contains included a) ≡ true)

-- The state key that a query asks for; a timeline query asks for none.
abbrev pub KeyPasses : QueryType → Option String → Type 0
KeyPasses (timeline from to) key = Unit
KeyPasses (state at keys not_keys) none = ⊥
KeyPasses (state at keys not_keys) (some k) = Passes keys not_keys k

admits-pass {ℓ} :
    {A : Type ℓ} ⦃e : Eq A⦄ (included excluded : List A) (a : A)
    → (admits included excluded a ≡ true) ↔ Passes included excluded a
admits-pass included excluded a = ground arith

key_matches-pass :
    (query_type : QueryType) (key : Option String)
    → (key_matches query_type key ≡ true) ↔ KeyPasses query_type key
key_matches-pass (timeline from to) key = (λ h. tt, λ h. refl)
key_matches-pass (state at keys not_keys) none = (λ h. cc, λ h. elim h [ ])
key_matches-pass (state at keys not_keys) (some k) = admits-pass keys not_keys k

module _ {J : Type 0} (S : Serde J) where
  -- Each field that a query lists has, in the content, the value that it is listed with.
  abbrev pub FieldsPass : List (String × J) → J → Type 0
  FieldsPass fields json = All (λ (field : String × J). S.get json field.0 ≡ some field.1) fields

  fields_match-pass :
      (fields : List (String × J)) (json : J)
      → (fields_match S fields json ≡ true) ↔ FieldsPass fields json
  unfolding fields_match option_eq
  fields_match-pass [] json = (λ h. tt, λ h. refl)
  fields_match-pass ((key, value) ∷ fields) json =
      let (to, from) = fields_match-pass fields json in
      (λ h. (ground arith, to (ground arith)), λ (e, es). ground (arith, from es))

  -- The part of a query that is no filter on fields: the event passes each of its filters.
  pub record Selected (q : EventQuery J) (pdu : VersionedPdu J) : Type 0 where
    pub key : KeyPasses q.query_type (state_key pdu)
    pub by_sender : Passes q.senders q.not_senders (sender pdu)
    pub by_type : Passes q.types q.not_types (get_type (event_content pdu))

-- The answer, if there is one.
abbrev pub is_hit : Outcome Bool → Bool
is_hit (ok b) = b
is_hit _ = false

module _ {J : Type 0} (S : Serde J) where
  -- `contains_json` is an object, where it is given, as the source's `expect` wants it.
  abbrev pub asks_object : Option J → Bool
  asks_object none = true
  asks_object (some value) = is_some (S.as_object value)

  json_matches_total :
      (wanted : Option J) (pdu : VersionedPdu J)
      → asks_object wanted ≡ true
      → json_matches S wanted pdu ≡ ok (is_hit (json_matches S wanted pdu))
  unfolding json_matches
  json_matches_total none pdu h = refl
  json_matches_total (some value) pdu h = ground arith

  pub matches_total :
      (q : EventQuery J) (pdu : VersionedPdu J)
      → asks_object q.contains_json ≡ true
      → matches S q pdu ≡ ok (is_hit (matches S q pdu))
  unfolding matches
  matches_total q pdu h = ground (arith, json_matches_total q.contains_json pdu h)

  matches_plain :
      (q : EventQuery J) (pdu : VersionedPdu J)
      → q.contains_json ≡ none
      → (matches S q pdu ≡ ok true) ↔ Selected S q pdu
  unfolding matches json_matches
  matches_plain q pdu plain =
      let k = key_matches-pass q.query_type (state_key pdu) in
      let s = admits-pass q.senders q.not_senders (sender pdu) in
      let t = admits-pass q.types q.not_types (get_type (event_content pdu)) in
      (
        λ h. record {
          key = k.0 (ground arith);
          by_sender = s.0 (ground arith);
          by_type = t.0 (ground arith);
        },
        λ sel. ground (arith, k.1 sel.key, s.1 sel.by_sender, t.1 sel.by_type),
      )

  -- A query with no JSON filter has an answer for every event, and matches exactly the events that
  -- pass the filters on state keys, senders and types.
  pub matches_iff :
      (q : EventQuery J) (pdu : VersionedPdu J)
      → q.contains_json ≡ none
      → ((matches S q pdu ≡ ok true) ⊎ (matches S q pdu ≡ ok false))
        × ((matches S q pdu ≡ ok true) ↔ Selected S q pdu)
  matches_iff q pdu plain =
      let total = matches_total q pdu (ap asks_object plain) in
      (ground arith, matches_plain q pdu plain)
