-- ===== src/Storage/Sled/Rooms/Tests.antt =====
-- storage/sled.rs: the theorems on rooms at the stand-in.
use Prim.Native.Nat.{◌<◌}
use mathlib.Core.Option.{some-injective}
use kerux.Prelude.{
  ℕ, ◌^◌, String, ◌≡◌, ◌≢◌, refl, sym, subst, inl, inr, true, false, none, some, List, [], ◌∷◌,
  arith,
}
use kerux.Prelude.Tests.{is_some, Bool-cases}
use kerux.Prelude.Equality.{◌==◌, ==-eq, string_eq, list_eq, nat_eq}
use kerux.Prelude.Maps.{lookup}
use kerux.Errors.{ok, ok-injective}
use kerux.Storage.Query.{EventQuery, timeline}
use kerux.Storage.Sled.{SledStorage, new_storage}
use kerux.Storage.Sled.Rooms.{handle, to_be_bytes, add_pdus}
use kerux.Storage.Sled.Rooms.Queries.{query_pdus}
use kerux.Storage.Sled.Rooms.Reachable.{started, added, add_pdus-Reachable}
use kerux.Storage.Sled.Rooms.Search.{Numbered, query_pdus-finds}
use kerux.Storage.Sled.Fixture.{Bytes, text_bytes, stand_in, ListTree}
use kerux.Storage.Sled.Fixture.Laws.{stand_in-IsOrders, stand_in_range}
use kerux.Fixtures.{runs, serde, hashing, events, room_x, passed, create_pdu}

abbrev started_storage : SledStorage stand_in
started_storage = new_storage stand_in

abbrev filled : SledStorage stand_in
filled = (add_pdus serde hashing stand_in 9 events started_storage).1

abbrev query : EventQuery String
query = record {
  query_type = timeline 0 (some 5);
  room_id = room_x;
  senders = [];
  not_senders = [];
  types = [];
  not_types = [];
  contains_json = none;
}

add_pdus-Reachable_example : (add_pdus serde hashing stand_in 9 events filled).0 ≢ ok tt
add_pdus-Reachable_example =
    add_pdus-Reachable serde hashing stand_in stand_in-IsOrders 9 (passed create_pdu) _ filled
      (added 9 events started)

-- An order with the event of the number 1.
abbrev order : ListTree Bytes (List ℕ)
unfolding lookup
order = ((0 ∷ 0 ∷ 0 ∷ 1 ∷ [], text_bytes "$c") ∷ [], (refl, tt))

order_key : (k : List ℕ) → is_some (lookup k order.0) ≡ true → k ≡ to_be_bytes 4 1
unfolding lookup order to_be_bytes
order_key k h = elim (Bool-cases (k == (0 ∷ 0 ∷ 0 ∷ 1 ∷ []))) [
  | inl same ↦ ==-eq k _ same
  | inr differ ↦ cc
]

abbrev ordered : SledStorage stand_in
unfolding order
ordered = record (new_storage stand_in) { orderings = (room_x, order) ∷ [] }

order-Numbered :
    (t : ListTree Bytes (List ℕ))
    → handle stand_in room_x ordered ≡ ok t
    → Numbered stand_in.orders stand_in_range t
unfolding runs ordered stand_in_range
order-Numbered t e k h =
    let same : order ≡ t = ok-injective _ _ e in
    (
      1,
      omega arith,
      omega arith,
      order_key k (subst (λ x. is_some (lookup k x.0) ≡ true) (sym same) h),
    )

small_end : (to : ℕ) → some 5 ≡ some to → to < 2 ^ 32
small_end to e = let five = some-injective 5 to e in omega arith

query_pdus-finds_example :
    (query_pdus serde stand_in query false ordered ordered).0 ≢ ok (passed create_pdu ∷ [], 5)
query_pdus-finds_example =
    query_pdus-finds serde stand_in stand_in_range query false ordered ordered (passed create_pdu)
      [] 5 order-Numbered small_end
