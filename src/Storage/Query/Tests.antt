-- ===== src/Storage/Query/Tests.antt =====
-- storage/mod.rs: which events a query matches, at a concrete query.
use kerux.Prelude.{String, ◌≡◌, ◌↔◌, ◌⊎◌, refl, true, false, none, [], ◌∷◌}
use kerux.Errors.{ok}
use kerux.Storage.Query.{EventQuery, state, matches}
use kerux.Storage.Query.Matching.{matches_iff, Selected}
use kerux.Fixtures.{serde, room_x, join_pdu}

abbrev memberships : EventQuery String
memberships = record {
  query_type = state none [] [];
  room_id = room_x;
  senders = [];
  not_senders = [];
  types = "m.room.member" ∷ [];
  not_types = [];
  contains_json = none;
}

matches_iff_example :
    ((matches serde memberships join_pdu ≡ ok true)
      ⊎ (matches serde memberships join_pdu ≡ ok false))
    × ((matches serde memberships join_pdu ≡ ok true) ↔ Selected serde memberships join_pdu)
matches_iff_example = matches_iff serde memberships join_pdu refl
