-- ===== src/Storage/Sled/Rooms/Search.antt =====
-- storage/sled.rs: what `query_pdus` finds in the order of a room.
use Prim.Native.Nat.{◌<◌}
use kerux.Prelude.{
  ℕ, ◌^◌, ◌≡◌, ◌≢◌, refl, sym, ap, ◌∙◌, subst, Bool, true, false, not, ◌&&◌, String, Option, none,
  some, List, [], ◌∷◌, inl, inr, ◌⊎◌, arith,
}
use kerux.Prelude.Tests.{is_some, if◌then◌else◌}
use kerux.Prelude.Equality.{list_eq, nat_eq}
use kerux.Prelude.Lists.{is_empty}
use kerux.Prelude.Maps.{lookup}
use kerux.State.{expect}
use kerux.Errors.{Outcome, ok, err, >>=-eq-ok, ok-injective, panic, running, room_not_found}
use kerux.Exec.{continue_ok, reads}
use kerux.Events.Content.{Serde}
use kerux.Events.Pdu.{StoredPdu}
use kerux.Storage.Query.{EventQuery, is_timeline}
use kerux.Storage.Mem.Rooms.{bounds}
use kerux.Storage.Sled.{TreeOf, Sled, SledStorage}
use kerux.Storage.Sled.Rooms.{handle, opened, order_of, to_be_bytes, get_room_ordering_tree}
use kerux.Storage.Sled.Rooms.Queries.{look_again, matching, get_events, query_opened, query_pdus}
use kerux.Storage.Sled.Rooms.Keys.{le_bytes, le_bytes-bound}

module _ {B : Type 0} where
  unfoldable pub EachKey : (List ℕ → Type 0) → List (List ℕ × B) → Type 0
  EachKey P [] = Unit {0}
  EachKey P ((key, value) ∷ es) = P key × EachKey P es

module _ {B : Type 0} (T : TreeOf B (List ℕ)) where
  -- A range has entries of the tree, and only those within it.
  pub record IsRange : Type 0 where
    pub entries : T.Tree → List (List ℕ × B)
    pub range_lem :
        (from to : List ℕ) (t : T.Tree) (es : List (List ℕ × B))
        → T.range from (some to) t ≡ ok es
        → EachKey (λ k. (is_some (lookup k (entries t)) ≡ true) × (le_bytes k to ≡ true)) es

  -- Every entry has the four bytes of a number above 0.
  abbrev pub Numbered : IsRange → T.Tree → Type 0
  Numbered laws t =
      (k : List ℕ)
      → is_some (lookup k (laws.entries t)) ≡ true
      → (i : ℕ) × (0 < i) × (i < 2 ^ 32) × (k ≡ to_be_bytes 4 i)

  range_empty :
      (laws : IsRange) (from : List ℕ) (to : ℕ) (t : T.Tree) (es : List (List ℕ × B))
      → Numbered laws t
      → to < 2 ^ 32
      → T.range from (some (to_be_bytes 8 to)) t ≡ ok es
      → es ≡ []
  unfolding EachKey
  range_empty laws from to t [] h lt e = refl
  range_empty laws from to t ((key, value) ∷ es) h lt e =
      let ((present, below), rest) = laws.range_lem from (to_be_bytes 8 to) t _ e in
      let (i, positive, small, same) = h key present in
      let zero_index =
        le_bytes-bound i to small lt
          (subst (λ k. le_bytes k (to_be_bytes 8 to) ≡ true) same below) in
      absurd (omega arith)

module _ {J : Type 0} (S : Serde J) (D : Sled J) (laws : IsRange D.orders) where
  get_events_open :
      (t : D.orders.Tree) (q : EventQuery J) (from : ℕ) (s : SledStorage D)
      (res : List (StoredPdu J) × ℕ)
      → get_events S D t q from none s ≢ ok res
  unfolding get_events
  get_events_open t q from s res e =
      let (es, ranged, e1) = >>=-eq-ok (D.orders.range (to_be_bytes 8 from) none t) _ e in
      let (found, matched, e2) = >>=-eq-ok (matching S D q s.events es) _ e1 in cc

  get_events_closed :
      (t : D.orders.Tree) (q : EventQuery J) (from to : ℕ) (s : SledStorage D)
      (res : List (StoredPdu J) × ℕ)
      → Numbered D.orders laws t
      → to < 2 ^ 32
      → get_events S D t q from (some to) s ≡ ok res
      → res.0 ≡ []
  unfolding get_events matching
  get_events_closed t q from to s res h lt e =
      let (es, ranged, e1) =
        >>=-eq-ok (D.orders.range (to_be_bytes 8 from) (some (to_be_bytes 8 to)) t) _ e in
      let (found, matched, e2) = >>=-eq-ok (matching S D q s.events es) _ e1 in
      let none_there = range_empty D.orders laws (to_be_bytes 8 from) to t es h lt ranged in
      let matched' = subst (λ l. matching S D q s.events l ≡ ok found) none_there matched in
      ap (λ x. x.0) (sym (ok-injective _ _ e2)) ∙ sym (ok-injective _ _ matched')

  get_events-finds :
      (t : D.orders.Tree) (q : EventQuery J) (from : ℕ) (end : Option ℕ) (s : SledStorage D)
      (res : List (StoredPdu J) × ℕ)
      → Numbered D.orders laws t
      → ((to : ℕ) → end ≡ some to → to < 2 ^ 32)
      → get_events S D t q from end s ≡ ok res
      → res.0 ≡ []
  get_events-finds t q from none s res h small e = absurd (get_events_open t q from s res e)
  get_events-finds t q from (some to) s res h small e =
      get_events_closed t q from to s res h (small to refl) e

  if-ok :
      {A : Type 0} (b : Bool) (x y : Outcome A) (a : A)
      → (if b then x else y) ≡ ok a
      → (x ≡ ok a) ⊎ (y ≡ ok a)
  if-ok true x y a e = inl e
  if-ok false x y a e = inr e

  -- A query that has waited asks for a range without an end.
  look_again-ok :
      (q : EventQuery J) (wait : Bool) (later : SledStorage D) (first res : List (StoredPdu J) × ℕ)
      → look_again S D q wait later first ≡ ok res
      → first ≡ res
  look_again-ok q wait later first res e =
      elim (if-ok (not (wait && (is_empty first.0 && is_timeline q.query_type))) (ok first) _ res
        e) [
          | inl at_once ↦ ok-injective first res at_once
          | inr waits ↦
              let (from, some_end, e1) =
                >>=-eq-ok (expect (bounds S q.query_type).1)
                  (λ from. get_events S D (order_of D q.room_id later) q from none later) waits in
              absurd (get_events_open (order_of D q.room_id later) q from later res e1)
        ]

  query_opened-finds :
      (t : D.orders.Tree) (q : EventQuery J) (wait : Bool) (s later : SledStorage D)
      (res : List (StoredPdu J) × ℕ)
      → Numbered D.orders laws t
      → ((to : ℕ) → (bounds S q.query_type).1 ≡ some to → to < 2 ^ 32)
      → query_opened S D t q wait s later ≡ ok res
      → res.0 ≡ []
  unfolding query_opened
  query_opened-finds t q wait s later res h small e =
      let (first, got, rest) =
        >>=-eq-ok (get_events S D t q (bounds S q.query_type).0 (bounds S q.query_type).1 s)
          (look_again S D q wait later)
          (elim (if-ok (D.orders.is_empty t) (err room_not_found) _ res e) [
            | inl missing ↦ cc
            | inr found ↦ found
          ]) in
      sym (ap (λ x. x.0) (look_again-ok q wait later first res rest))
      ∙ get_events-finds t q (bounds S q.query_type).0 (bounds S q.query_type).1 s first h small got

  opened-ok :
      (id : String) (o : Outcome D.orders.Tree) (s : SledStorage D) (t : D.orders.Tree)
      → (opened D id o s).0 ≡ ok t
      → o ≡ ok t
  opened-ok id (ok tree) s t e = e
  opened-ok id (err x) s t e = e
  opened-ok id panic s t e = e
  opened-ok id running s t e = e

  -- A query returns no event, if the numbers of the room's events are above 0 and the query's
  -- upper end, if it has one, fits into 32 bits.
  pub query_pdus-finds :
      (q : EventQuery J) (wait : Bool) (later s : SledStorage D) (pdu : StoredPdu J)
      (pdus : List (StoredPdu J)) (last : ℕ)
      → ((t : D.orders.Tree) → handle D q.room_id s ≡ ok t → Numbered D.orders laws t)
      → ((to : ℕ) → (bounds S q.query_type).1 ≡ some to → to < 2 ^ 32)
      → (query_pdus S D q wait later s).0 ≢ ok (pdu ∷ pdus, last)
  unfolding query_pdus get_room_ordering_tree
  query_pdus-finds q wait later s pdu pdus last numbered small e =
      let o = handle D q.room_id s in
      let (t, opens, answered, rest) =
        continue_ok (opened D q.room_id o s).0
          (λ tree. reads (λ x. query_opened S D tree q wait x later)) (opened D q.room_id o s).1
          e in
      let nothing =
        query_opened-finds t q wait (opened D q.room_id o s).1 later (pdu ∷ pdus, last)
          (numbered t (opened-ok q.room_id o s t opens)) small answered in
      cc
