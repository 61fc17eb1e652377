-- ===== src/Storage/Sled/Rooms/Orders.antt =====
-- storage/sled.rs: how an event gets its number, and what becomes of a room whose order is empty.
use kerux.Prelude.{
  ℕ, zero, suc, String, ◌≡◌, ◌≢◌, refl, sym, Bool, true, false, none, List, [], ◌∷◌, inl, inr,
}
use kerux.Prelude.Tests.{if◌then◌else◌, Bool-cases}
use kerux.Prelude.Equality.{◌==◌, string_eq}
use kerux.Prelude.Lists.{contains}
use kerux.Prelude.Maps.{HashMap, HashSet, set_insert, lookup, insert, lookup-insert, lookup-nil}
use kerux.Errors.{Outcome, ok-injective, ok, err, panic, running}
use kerux.Exec.{Exec, continue, continue_keeps}
use kerux.Events.Room.{unwrap_or}
use kerux.Events.Content.{Serde}
use kerux.Events.Pdu.{StoredPdu, Hashing, room_id}
use kerux.Storage.Sled.{Sled, SledStorage, new_storage}
use kerux.Storage.Sled.Rooms.{
  cas_loop, order_of, handle, put_order, put_event, id_of, add_pdu, add_pdus, opened,
  get_room_ordering_tree,
}

-- What is documented of the trees of orders: a tree is opened as it was left.
pub record IsOrders {J : Type 0} (D : Sled J) : Type 0 where
  pub last_new : D.orders.last D.orders.new_tree ≡ ok none
  pub open_lem :
      (name : String) (m : HashMap String D.orders.Tree) (t : D.orders.Tree)
      → D.open_tree name m ≡ ok t
      → t ≡ unwrap_or (lookup name m) D.orders.new_tree
  pub is_empty_lem : (t : D.orders.Tree) → D.orders.last t ≡ ok none → D.orders.is_empty t ≡ true

module _ {J : Type 0} (D : Sled J) where
  -- No room's order has an entry.
  abbrev pub Unordered : SledStorage D → Type 0
  Unordered s = (id : String) → D.orders.last (order_of D id s) ≡ ok none

  cas_loop_empty :
      (rounds : ℕ) (id : D.Bytes) (t : D.orders.Tree)
      → D.orders.last t ≡ ok none
      → cas_loop D rounds id t ≡ (running, t)
  unfolding cas_loop
  cas_loop_empty zero id t h = refl
  cas_loop_empty (suc rounds) id t h = rw h (cas_loop_empty rounds id t h)

  module _ (laws : IsOrders D) where
    pub new-Unordered : Unordered (new_storage D)
    new-Unordered id = rw (lookup-nil {V = D.orders.Tree} id) laws.last_new

    -- What `get_room_ordering_tree` opens is empty, and so are the orders after it.
    pub with_order-Unordered :
        (id : String) (t : D.orders.Tree) (s : SledStorage D) (rooms : HashSet String)
        → D.orders.last t ≡ ok none
        → Unordered s
        → Unordered (record s { orderings = insert id t s.orderings; room_orderings = rooms })
    with_order-Unordered id t s rooms e h j = elim (Bool-cases (j == id)) [
      | inl same ↦ rw (lookup-insert j id t s.orderings, same) e
      | inr differ ↦ rw (lookup-insert j id t s.orderings, differ) (h j)
    ]

    opened_tree :
        (before : Bool) (id : String) (s : SledStorage D) (t : D.orders.Tree)
        → (if before then ok (order_of D id s) else D.open_tree id s.orderings) ≡ ok t
        → t ≡ order_of D id s
    opened_tree true id s t e = sym (ok-injective _ _ e)
    opened_tree false id s t e = laws.open_lem id s.orderings t e

    pub opened_last :
        (id : String) (s : SledStorage D) (t : D.orders.Tree)
        → Unordered s
        → handle D id s ≡ ok t
        → D.orders.last t ≡ ok none
    opened_last id s t h e = rw (opened_tree (contains s.room_orderings id) id s t e) (h id)

    -- Neither ends well nor gives a room's order an entry.
    abbrev pub Stuck : {A : Type 0} → Outcome A × SledStorage D → Type 0
    Stuck {A = A} r = ((a : A) → r.0 ≢ ok a) × Unordered r.1

    pub later-Stuck :
        {A B : Type 0} (o : Outcome A) (f : A → Exec (SledStorage D) B) (s : SledStorage D)
        → Unordered s
        → ((a : A) → Stuck (f a s))
        → Stuck (continue o f s)
    later-Stuck (ok a) f s h k = k a
    later-Stuck (err x) f s h k = (λ a. cc, h)
    later-Stuck panic f s h k = (λ a. cc, h)
    later-Stuck running f s h k = (λ a. cc, h)

    module _ (S : Serde J) (H : Hashing J) where
      put_order-Stuck :
          (rounds : ℕ) (pdu : StoredPdu J) (t : D.orders.Tree) (s : SledStorage D)
          → D.orders.last t ≡ ok none
          → Unordered s
          → Stuck (put_order S H D rounds pdu t s)
      put_order-Stuck rounds pdu t s e h =
          rw (cas_loop_empty rounds (D.utf8 (id_of S H D pdu)) t e)
            ((λ a. cc), with_order-Unordered (room_id pdu.inner) t s s.room_orderings e h)

      opened-Stuck :
          (rounds : ℕ) (pdu : StoredPdu J) (o : Outcome D.orders.Tree) (s : SledStorage D)
          → ((t : D.orders.Tree) → o ≡ ok t → D.orders.last t ≡ ok none)
          → Unordered s
          → Stuck (
              continue
                (opened D (room_id pdu.inner) o s).0
                (put_order S H D rounds pdu)
                (opened D (room_id pdu.inner) o s).1)
      opened-Stuck rounds pdu (ok t) s e h = put_order-Stuck rounds pdu t _ (e t refl) (
          with_order-Unordered (room_id pdu.inner) t s
            (set_insert (room_id pdu.inner) s.room_orderings) (e t refl) h)
      opened-Stuck rounds pdu (err x) s e h = (λ a. cc, h)
      opened-Stuck rounds pdu panic s e h = (λ a. cc, h)
      opened-Stuck rounds pdu running s e h = (λ a. cc, h)

      pub add_pdu-Stuck :
          (rounds : ℕ) (pdu : StoredPdu J) (s : SledStorage D)
          → Unordered s
          → Stuck (add_pdu S H D rounds pdu s)
      unfolding add_pdu get_room_ordering_tree
      add_pdu-Stuck rounds pdu s h =
          let put = put_event S H D pdu s in
          later-Stuck put.0 _ put.1 h (λ a.
            opened-Stuck rounds pdu (handle D (room_id pdu.inner) s) put.1
              (λ t. opened_last (room_id pdu.inner) s t h) h)

      pub add_pdus-Unordered :
          (rounds : ℕ) (pdus : List (StoredPdu J)) (s : SledStorage D)
          → Unordered s
          → Unordered (add_pdus S H D rounds pdus s).1
      unfolding add_pdus
      add_pdus-Unordered rounds [] s h = h
      add_pdus-Unordered rounds (pdu ∷ pdus) s h =
          let (never, kept) = add_pdu-Stuck rounds pdu s h in
          continue_keeps Unordered (add_pdu S H D rounds pdu s).0 (λ _. add_pdus S H D rounds pdus)
            (add_pdu S H D rounds pdu s).1 kept
            (λ a. add_pdus-Unordered rounds pdus (add_pdu S H D rounds pdu s).1 kept)
