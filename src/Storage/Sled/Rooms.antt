-- ===== src/Storage/Sled/Rooms.antt =====
-- storage/sled.rs: the events of the rooms. They are in one tree, and a tree for each room has
-- their order: the number of an event, as four bytes, to its identifier.
pub mod Keys
pub mod Queries
pub mod Orders
pub mod Reachable
pub mod Search
pub mod Depth
mod Tests
use Prim.Native.String.{◌++◌ as ◌<>◌}
use Prim.Native.Nat.{◌/◌, ◌%◌, ◌*◌}
use kerux.Prelude.{ℕ, zero, suc, ◌+◌, ◌^◌, String, Bool, true, false, ◌&&◌, not, Option, none, some}
use kerux.Prelude.{List, [], ◌∷◌, ◌++◌, map}
use kerux.Prelude.Tests.{eqb, if◌then◌else◌, map_option}
use kerux.Prelude.Equality.{◌==◌, string_eq}
use kerux.Prelude.Lists.{contains, is_empty}
use kerux.Prelude.Maps.{HashMap, lookup, insert, set_insert}
use kerux.Prelude.Ints.{ℤ, negsuc}
use kerux.Errors.{Outcome, ok, err, panic, running, room_not_found, ◌>>=◌}
use kerux.Exec
use kerux.Exec.{Exec, reads, pure}
use kerux.Mxid.Text.{split, second}
use kerux.Events.Room.{unwrap_or}
use kerux.Events.Content.{Serde}
use kerux.Events.Pdu.{StoredPdu, Hashing, event_id, room_id, prev_events}
use kerux.Storage.Query.{QueryType, timeline, state, EventQuery, is_timeline, matches}
use kerux.Storage.Mem.Rooms.{bounds}
use kerux.Storage.Sled.{TreeOf, Sled, SledStorage, get_value, try_insert_value}
use kerux.State.{expect}

-- `to_be_bytes` of an integer of so many bytes.
unfoldable pub to_be_bytes : ℕ → ℕ → List ℕ
to_be_bytes zero n = []
to_be_bytes (suc w) n = (n / 256 ^ w % 256) ∷ to_be_bytes w n

-- `u32::from_be_bytes`, and `&key[0..4]`, which panics on a shorter key.
unfoldable pub from_be_bytes : List ℕ → ℕ → ℕ
from_be_bytes [] acc = acc
from_be_bytes (b ∷ bs) acc = from_be_bytes bs (acc * 256 + b)

abbrev pub u32_of_key : List ℕ → Outcome ℕ
u32_of_key (a ∷ b ∷ c ∷ d ∷ rest) = ok (from_be_bytes (a ∷ b ∷ c ∷ d ∷ []) 0)
u32_of_key _ = panic

-- `+ 1` on a `u32`, which panics where it overflows, in a build that checks for it.
abbrev pub next_index : ℕ → Outcome ℕ
next_index n = if eqb (n + 1) (2 ^ 32) then panic else ok (n + 1)

-- `format!("{}_{}", room_id, event_id)` and `format!("{}~{}", ..)`
abbrev pub event_name : String → String → String
event_name id event = id <> ("_" <> event)

abbrev pub headless_name : String → String → String
headless_name id event = id <> ("~" <> event)

module _ {J : Type 0} (D : Sled J) where
  abbrev pub order_of : String → SledStorage D → D.orders.Tree
  order_of id s = unwrap_or (lookup id s.orderings) D.orders.new_tree

  -- A tree that was opened before has its handle already.
  abbrev pub handle : String → SledStorage D → Outcome D.orders.Tree
  handle id s =
      if contains s.room_orderings id then ok (order_of id s) else D.open_tree id s.orderings

  abbrev pub opened : String → Outcome D.orders.Tree → Exec (SledStorage D) D.orders.Tree
  opened id (ok tree) s = (
    ok tree,
    record s {
      orderings = insert id tree s.orderings;
      room_orderings = set_insert id s.room_orderings;
    },
  )
  opened id (err e) s = (err e, s)
  opened id panic s = (panic, s)
  opened id running s = (running, s)

  unfoldable pub get_room_ordering_tree : String → Exec (SledStorage D) D.orders.Tree
  get_room_ordering_tree id s = opened id (handle id s) s

  -- The loop `'cas`: it goes on for as long as no number is taken for the event.
  abbrev retry : Bool → Exec D.orders.Tree (Unit {0}) → Exec D.orders.Tree (Unit {0})
  retry swapped again = if swapped then pure tt else again

  abbrev take_next :
      D.Bytes
      → Exec D.orders.Tree (Unit {0})
      → Option (List ℕ × D.Bytes)
      → Exec D.orders.Tree (Unit {0})
  take_next id again none = again
  take_next id again (some (key, value)) =
      Exec.◌>>=◌ (reads (λ _. do n ← u32_of_key key; next_index n)) (λ idx.
        Exec.◌>>=◌ (D.orders.compare_and_swap (to_be_bytes 4 idx) none (some id))
          (λ swapped. retry swapped again))

  unfoldable pub cas_loop : ℕ → D.Bytes → Exec D.orders.Tree (Unit {0})
  cas_loop zero id tree = (running, tree)
  cas_loop (suc rounds) id tree =
      Exec.◌>>=◌ (reads D.orders.last) (take_next id (cas_loop rounds id)) tree

  -- A call of the tree of a room's order, of the events, the heads and the rooms.
  abbrev pub on_order :
      {A : Type 0} → String → D.orders.Tree → Exec D.orders.Tree A → Exec (SledStorage D) A
  on_order id tree m s = ((m tree).0, record s { orderings = insert id (m tree).1 s.orderings })

  abbrev pub on_events : {A : Type 0} → Exec D.texts.Tree A → Exec (SledStorage D) A
  on_events m s = ((m s.events).0, record s { events = (m s.events).1 })

  abbrev pub on_headless : {A : Type 0} → Exec D.texts.Tree A → Exec (SledStorage D) A
  on_headless m s =
      ((m s.headless_events).0, record s { headless_events = (m s.headless_events).1 })

  abbrev pub on_rooms : {A : Type 0} → Exec D.texts.Tree A → Exec (SledStorage D) A
  on_rooms m s = ((m s.rooms).0, record s { rooms = (m s.rooms).1 })

  -- What the event refers to is no head any more.
  unfoldable pub remove_heads : String → List String → Exec D.texts.Tree (Unit {0})
  remove_heads id [] = pure tt
  remove_heads id (prev ∷ prevs) =
      Exec.◌>>◌ (D.texts.remove (headless_name id prev)) (remove_heads id prevs)

  -- `k.split(..).nth(1).unwrap()`, for every key under the room's prefix.
  unfoldable pub heads_of : List (String × D.Bytes) → Outcome (List String)
  heads_of [] = ok []
  heads_of ((key, value) ∷ entries) = do
    head ← expect (second (split b'~' key))
    heads ← heads_of entries
    ok (head ∷ heads)

  unfoldable pub get_prev_events : String → SledStorage D → Outcome (List String × ℤ)
  unfolding heads_of
  get_prev_events id s = do
    max_depth ← get_value D.texts D.depth_codec id s.headless_events
    entries ← D.texts.scan_prefix (id <> "~") s.headless_events
    heads ← heads_of entries
    ok (heads, unwrap_or max_depth (negsuc 0))

  unfoldable pub get_rooms : SledStorage D → Outcome (List String)
  get_rooms s = do entries ← D.texts.iter s.rooms; ok (map (λ (e : String × D.Bytes). e.0) entries)

  unfoldable pub get_pdu : String → String → SledStorage D → Outcome (Option (StoredPdu J))
  get_pdu id event s = get_value D.texts D.pdu_codec (event_name id event) s.events

module _ {J : Type 0} (S : Serde J) (H : Hashing J) (D : Sled J) where
  abbrev pub id_of : StoredPdu J → String
  id_of pdu = event_id S H pdu.inner

  -- What comes behind the loop `'cas`.
  abbrev pub put_room : StoredPdu J → Exec (SledStorage D) (Unit {0})
  put_room pdu = Exec.◌>>◌ (on_rooms D (D.texts.insert (room_id pdu.inner) D.no_bytes)) (pure tt)

  abbrev pub put_self : StoredPdu J → Exec (SledStorage D) (Unit {0})
  put_self pdu =
      Exec.◌>>◌
        (on_headless D (D.texts.insert (headless_name (room_id pdu.inner) (id_of pdu)) D.no_bytes))
        (put_room pdu)

  abbrev pub put_head : StoredPdu J → Exec (SledStorage D) (Unit {0})
  put_head pdu =
      Exec.◌>>◌ (on_headless D (remove_heads D (room_id pdu.inner) (prev_events pdu.inner)))
        (put_self pdu)

  abbrev pub put_order : ℕ → StoredPdu J → D.orders.Tree → Exec (SledStorage D) (Unit {0})
  put_order rounds pdu tree =
      Exec.◌>>=◌ (on_order D (room_id pdu.inner) tree (cas_loop D rounds (D.utf8 (id_of pdu))))
        (λ _. put_head pdu)

  abbrev pub put_event : StoredPdu J → Exec (SledStorage D) Bool
  put_event pdu =
      on_events D
        (try_insert_value D.texts D.pdu_codec (event_name (room_id pdu.inner) (id_of pdu)) pdu)

  -- One round of the loop of `add_pdus`.
  unfoldable pub add_pdu : ℕ → StoredPdu J → Exec (SledStorage D) (Unit {0})
  unfolding get_room_ordering_tree cas_loop remove_heads
  add_pdu rounds pdu =
      Exec.◌>>=◌ (put_event pdu)
        (λ _. Exec.◌>>=◌ (get_room_ordering_tree D (room_id pdu.inner)) (put_order rounds pdu))

  unfoldable pub add_pdus : ℕ → List (StoredPdu J) → Exec (SledStorage D) (Unit {0})
  unfolding add_pdu
  add_pdus rounds [] = pure tt
  add_pdus rounds (pdu ∷ pdus) = Exec.◌>>◌ (add_pdu rounds pdu) (add_pdus rounds pdus)
