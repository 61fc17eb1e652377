-- ===== src/Storage/Sled/Rooms/Depth.antt =====
-- storage/sled.rs: the depth that `get_prev_events` gives. It is read under the identifier of the
-- room, while heads are written under names with a tilde.
use Prim.Native.Char.{Char}
use Prim.Native.String.{◌++◌ as ◌<>◌}
use text.Mathlib.TextLemmas.{nil-append, cons-append}
use kerux.Prelude.{ℕ, String, ◌≡◌, refl, ap, ◌∙◌, subst, none, inl, inr, List, [], ◌∷◌, arith}
use kerux.Prelude.Tests.{Bool-cases}
use kerux.Prelude.Equality.{◌==◌, string_eq, ==-eq}
use kerux.Prelude.Maps.{lookup, lookup-nil}
use kerux.Prelude.Ints.{negsuc}
use kerux.Errors.{Outcome, ok, err, panic, running, ◌>>=◌}
use kerux.Exec.{continue, continue_keeps, seq_keeps, pure}
use kerux.Mxid.Text.{any_char, Lacks}
use kerux.Events.Content.{Serde}
use kerux.Events.Pdu.{StoredPdu, Hashing, room_id, prev_events}
use kerux.Storage.Sled.{Sled, SledStorage, new_storage, get_value}
use kerux.Storage.Sled.Values.{IsTree}
use kerux.Storage.Sled.Rooms.{
  headless_name, id_of, on_headless, on_rooms, on_order, cas_loop, remove_heads, put_event,
  put_order, put_head, put_self, put_room, opened, handle, add_pdu, add_pdus,
  get_room_ordering_tree, get_prev_events, heads_of,
}

abbrev tilde : Char
tilde = "~"

has_tilde : (a b : String) → ¬ Lacks b'~' (a <> String.◌∷◌ tilde b)
unfolding any_char
has_tilde String.[] b h =
    let h' : Lacks b'~' (String.◌∷◌ tilde b) =
      subst (Lacks b'~') (nil-append (String.◌∷◌ tilde b)) h in
    cc
has_tilde (String.◌∷◌ c a) b h =
    let h' : Lacks b'~' (String.◌∷◌ c (a <> String.◌∷◌ tilde b)) =
      subst (Lacks b'~') (cons-append c a (String.◌∷◌ tilde b)) h in
    has_tilde a b (ground arith)

headless_name-tilde : (id event : String) → ¬ Lacks b'~' (headless_name id event)
headless_name-tilde id event h = has_tilde id event (
    subst (λ x. Lacks b'~' (id <> x))
      (cons-append tilde "" event ∙ ap (String.◌∷◌ tilde) (nil-append event)) h)

module _ {J : Type 0} (D : Sled J) (tree_lem : IsTree D.texts) where
  -- Every name under which a head is written has a tilde.
  abbrev pub HeadNames : D.texts.Tree → Type 0
  HeadNames t = (key : String) → Lacks b'~' key → lookup key (tree_lem.entries t) ≡ none

  remove_heads-HeadNames :
      (id : String) (prevs : List String) (t : D.texts.Tree)
      → HeadNames t
      → HeadNames (remove_heads D id prevs t).1
  unfolding remove_heads
  remove_heads-HeadNames id [] t h = h
  remove_heads-HeadNames id (prev ∷ prevs) t h =
      seq_keeps HeadNames (D.texts.remove (headless_name id prev)) (λ _. remove_heads D id prevs)
        (λ x k key lacks.
          ground (arith, k key lacks, tree_lem.lookup-remove key (headless_name id prev) x))
        (λ _ x k. remove_heads-HeadNames id prevs x k) t h

  insert-HeadNames :
      (id event : String) (b : D.Bytes) (t : D.texts.Tree)
      → HeadNames t
      → HeadNames (D.texts.insert (headless_name id event) b t).1
  insert-HeadNames id event b t h key lacks = elim (Bool-cases (key == headless_name id event)) [
    | inl same ↦ absurd (headless_name-tilde id event (subst (Lacks b'~') (==-eq key _ same) lacks))
    | inr differ ↦
        rw (tree_lem.lookup-insert key (headless_name id event) b t, differ) (h key lacks)
  ]

  abbrev pub NoDepth : SledStorage D → Type 0
  NoDepth s = HeadNames s.headless_events

  module _ (S : Serde J) (H : Hashing J) where
    put_head-NoDepth :
        (pdu : StoredPdu J) (s : SledStorage D) → NoDepth s → NoDepth (put_head S H D pdu s).1
    put_head-NoDepth pdu =
        let id = room_id pdu.inner in
        seq_keeps NoDepth (on_headless D (remove_heads D id (prev_events pdu.inner)))
          (λ _. put_self S H D pdu)
          (λ x. remove_heads-HeadNames id (prev_events pdu.inner) x.headless_events)
          (λ _.
            seq_keeps NoDepth
              (on_headless D (D.texts.insert (headless_name id (id_of S H D pdu)) D.no_bytes))
              (λ _. put_room S H D pdu)
              (λ x. insert-HeadNames id (id_of S H D pdu) D.no_bytes x.headless_events)
              (λ _.
                seq_keeps NoDepth (on_rooms D (D.texts.insert id D.no_bytes)) (λ _. pure tt)
                  (λ x k. k) (λ _ x k. k)))

    placed-NoDepth :
        (rounds : ℕ) (pdu : StoredPdu J) (id : String) (s : SledStorage D)
        (o : Outcome D.orders.Tree)
        → NoDepth s
        → NoDepth (continue (opened D id o s).0 (put_order S H D rounds pdu) (opened D id o s).1).1
    placed-NoDepth rounds pdu id s (ok t) h =
        seq_keeps NoDepth
          (on_order D (room_id pdu.inner) t (cas_loop D rounds (D.utf8 (id_of S H D pdu))))
          (λ _. put_head S H D pdu) (λ x k. k) (λ _. put_head-NoDepth pdu) (opened D id (ok t) s).1
          h
    placed-NoDepth rounds pdu id s (err e) h = h
    placed-NoDepth rounds pdu id s panic h = h
    placed-NoDepth rounds pdu id s running h = h

    add_pdu-NoDepth :
        (rounds : ℕ) (pdu : StoredPdu J) (s : SledStorage D)
        → NoDepth s
        → NoDepth (add_pdu S H D rounds pdu s).1
    unfolding add_pdu get_room_ordering_tree
    add_pdu-NoDepth rounds pdu s h =
        let put = put_event S H D pdu s in
        continue_keeps NoDepth put.0 _ put.1 h (λ _.
          placed-NoDepth rounds pdu (room_id pdu.inner) put.1 (handle D (room_id pdu.inner) put.1)
            h)

    add_pdus-NoDepth :
        (rounds : ℕ) (pdus : List (StoredPdu J)) (s : SledStorage D)
        → NoDepth s
        → NoDepth (add_pdus S H D rounds pdus s).1
    unfolding add_pdus
    add_pdus-NoDepth rounds [] s h = h
    add_pdus-NoDepth rounds (pdu ∷ pdus) s h =
        seq_keeps NoDepth (add_pdu S H D rounds pdu) (λ _. add_pdus S H D rounds pdus)
          (add_pdu-NoDepth rounds pdu) (λ _. add_pdus-NoDepth rounds pdus) s h

    -- If a database was new and events were added, however that ended, the previous events of a
    -- room whose identifier has no tilde come with the depth -1, whatever heads there are.
    pub get_prev_events-depth :
        (rounds : ℕ) (pdus : List (StoredPdu J)) (id : String)
        → Lacks b'~' id
        → let s = (add_pdus S H D rounds pdus (new_storage D)).1 in
          get_prev_events D id s ≡ (do
            entries ← D.texts.scan_prefix (id <> "~") s.headless_events
            heads ← heads_of D entries
            ok (heads, negsuc 0))
    unfolding get_prev_events get_value
    get_prev_events-depth rounds pdus id lacks =
        let s = (add_pdus S H D rounds pdus (new_storage D)).1 in
        let new : NoDepth (new_storage D) =
          λ key l. rw tree_lem.entries_new (lookup-nil {V = D.Bytes} key) in
        let absent = add_pdus-NoDepth rounds pdus (new_storage D) new id lacks in
        rw (tree_lem.get_lem id s.headless_events, absent) refl
