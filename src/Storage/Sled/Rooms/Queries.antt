-- ===== src/Storage/Sled/Rooms/Queries.antt =====
-- storage/sled.rs: how the events of a room are searched.
use kerux.Prelude.{ℕ, Bool, ◌&&◌, not, Option, none}
use kerux.Prelude.{List, [], ◌∷◌}
use kerux.Prelude.Tests.{if◌then◌else◌, map_option}
use kerux.Prelude.Equality.{string_eq}
use kerux.Prelude.Lists.{is_empty}
use kerux.Errors.{Outcome, ok, err, room_not_found, ◌>>=◌}
use kerux.Exec
use kerux.Exec.{Exec, reads, pure}
use kerux.Events.Content.{Serde}
use kerux.Events.Pdu.{StoredPdu}
use kerux.Storage.Query.{EventQuery, is_timeline, matches}
use kerux.Storage.Mem.Rooms.{bounds}
use kerux.Storage.Sled.{Sled, SledStorage}
use kerux.State.{expect}
use kerux.Storage.Sled.Rooms.{event_name, get_room_ordering_tree, order_of, to_be_bytes}

module _ {J : Type 0} (S : Serde J) (D : Sled J) where
  -- The events of a range of a room's order that the query matches.
  unfoldable pub matching :
      EventQuery J → D.texts.Tree → List (List ℕ × D.Bytes) → Outcome (List (StoredPdu J))
  matching q events [] = ok []
  matching q events ((key, value) ∷ entries) = do
    event ← expect (D.from_utf8 value)
    found ← D.texts.get (event_name q.room_id event) events
    bytes ← expect found
    pdu ← D.pdu_codec.deserialize bytes
    hit ← matches S q pdu.inner
    rest ← matching q events entries
    ok (if hit then pdu ∷ rest else rest)

  unfoldable pub get_events :
      D.orders.Tree → EventQuery J → ℕ → Option ℕ → SledStorage D → Outcome (List (StoredPdu J) × ℕ)
  unfolding matching
  get_events tree q from to s = do
    entries ← D.orders.range (to_be_bytes 8 from) (map_option (to_be_bytes 8) to) tree
    found ← matching q s.events entries
    last ← expect to
    ok (found, last)

  -- After the wait, which ends in a later state, the query looks again from the index `to`.
  abbrev pub look_again :
      EventQuery J
      → Bool
      → SledStorage D
      → List (StoredPdu J) × ℕ
      → Outcome (List (StoredPdu J) × ℕ)
  look_again q wait later res =
      if not (wait && (is_empty res.0 && is_timeline q.query_type)) then ok res else do
        from ← expect (bounds S q.query_type).1
        get_events (order_of D q.room_id later) q from none later

  unfoldable pub query_opened :
      D.orders.Tree
      → EventQuery J
      → Bool
      → SledStorage D
      → SledStorage D
      → Outcome (List (StoredPdu J) × ℕ)
  unfolding get_events
  query_opened tree q wait s later = if D.orders.is_empty tree then err room_not_found else do
    res ← get_events tree q (bounds S q.query_type).0 (bounds S q.query_type).1 s
    look_again q wait later res

  unfoldable pub query_pdus :
      EventQuery J → Bool → SledStorage D → Exec (SledStorage D) (List (StoredPdu J) × ℕ)
  unfolding get_room_ordering_tree query_opened
  query_pdus q wait later =
      Exec.◌>>=◌ (get_room_ordering_tree D q.room_id)
        (λ tree. reads (λ s. query_opened tree q wait s later))
