-- ===== src/Storage/Sled/Rooms/Reachable.antt =====
-- storage/sled.rs: a database that was new. Nothing gives the order of a room its first entry.
use kerux.Prelude.{ℕ, ◌≡◌, ◌≢◌, refl, Bool, none, List, ◌∷◌}
use kerux.Prelude.Equality.{string_eq}
use kerux.Prelude.Maps.{set_insert}
use kerux.Errors.{Outcome, ok, err, panic, running}
use kerux.Exec.{continue, continue_stopped, reads}
use kerux.Events.Content.{Serde}
use kerux.Events.Pdu.{StoredPdu, Hashing}
use kerux.Storage.Query.{EventQuery}
use kerux.Storage.Sled.{Sled, SledStorage, new_storage}
use kerux.Storage.Sled.Rooms.{add_pdu, add_pdus, handle, opened, get_room_ordering_tree}
use kerux.Storage.Sled.Rooms.Queries.{query_pdus, query_opened}
use kerux.Storage.Sled.Rooms.Orders.{
  IsOrders, Unordered, Stuck, new-Unordered, with_order-Unordered, opened_last, add_pdu-Stuck,
  add_pdus-Unordered,
}

module _ {J : Type 0} (S : Serde J) (H : Hashing J) (D : Sled J) where
  -- What methods of `Storage` make of a new database. Only two of them open orders.
  pub data Reachable : SledStorage D → Type 0 where
    started : Reachable (new_storage D)
    added :
        {s : SledStorage D} (rounds : ℕ) (pdus : List (StoredPdu J))
        → Reachable s
        → Reachable (add_pdus S H D rounds pdus s).1
    queried :
        {s : SledStorage D} (q : EventQuery J) (wait : Bool) (later : SledStorage D)
        → Reachable s
        → Reachable (query_pdus S D q wait later s).1
    called :
        {s : SledStorage D} (next : SledStorage D)
        → next.orderings ≡ s.orderings
        → Reachable s
        → Reachable next

  module _ (laws : IsOrders D) where
    opened_query-Stuck :
        (q : EventQuery J) (wait : Bool) (later : SledStorage D) (o : Outcome D.orders.Tree)
        (s : SledStorage D)
        → ((t : D.orders.Tree) → o ≡ ok t → D.orders.last t ≡ ok none)
        → Unordered D s
        → Stuck D laws (
            continue
              (opened D q.room_id o s).0
              (λ tree. reads (λ s. query_opened S D tree q wait s later))
              (opened D q.room_id o s).1)
    unfolding query_opened
    opened_query-Stuck q wait later (ok t) s e h = rw (laws.is_empty_lem t (e t refl)) (
      (λ a. cc),
      with_order-Unordered D laws q.room_id t s (set_insert q.room_id s.room_orderings) (e t refl)
          h,
    )
    opened_query-Stuck q wait later (err x) s e h = (λ a. cc, h)
    opened_query-Stuck q wait later panic s e h = (λ a. cc, h)
    opened_query-Stuck q wait later running s e h = (λ a. cc, h)

    query_pdus-Stuck :
        (q : EventQuery J) (wait : Bool) (later s : SledStorage D)
        → Unordered D s
        → Stuck D laws (query_pdus S D q wait later s)
    unfolding query_pdus get_room_ordering_tree
    query_pdus-Stuck q wait later s h =
        opened_query-Stuck q wait later (handle D q.room_id s) s
          (λ t. opened_last D laws q.room_id s t h) h

    Reachable-Unordered : (s : SledStorage D) → Reachable s → Unordered D s
    Reachable-Unordered s started = new-Unordered D laws
    Reachable-Unordered s (added {s = before} rounds pdus r) =
        add_pdus-Unordered D laws S H rounds pdus before (Reachable-Unordered before r)
    Reachable-Unordered s (queried {s = before} q wait later r) =
        (query_pdus-Stuck q wait later before (Reachable-Unordered before r)).1
    Reachable-Unordered s (called {s = before} next same r) =
        λ id. rw same (Reachable-Unordered before r id)

    -- On a database that was new, whatever was called since, a call of `add_pdus` with an event
    -- does not return, for any number of rounds of its loop, or ends in an error.
    pub add_pdus-Reachable :
        (rounds : ℕ) (pdu : StoredPdu J) (pdus : List (StoredPdu J)) (s : SledStorage D)
        → Reachable s
        → (add_pdus S H D rounds (pdu ∷ pdus) s).0 ≢ ok tt
    unfolding add_pdus
    add_pdus-Reachable rounds pdu pdus s r =
        let (never, kept) = add_pdu-Stuck D laws S H rounds pdu s (Reachable-Unordered s r) in
        continue_stopped (add_pdu S H D rounds pdu s).0 (λ _. add_pdus S H D rounds pdus)
          (add_pdu S H D rounds pdu s).1 tt never

    -- On such a database, no query of any room returns events.
    pub query_pdus-Reachable :
        (q : EventQuery J) (wait : Bool) (later s : SledStorage D) (res : List (StoredPdu J) × ℕ)
        → Reachable s
        → (query_pdus S D q wait later s).0 ≢ ok res
    query_pdus-Reachable q wait later s res r =
        (query_pdus-Stuck q wait later s (Reachable-Unordered s r)).0 res
