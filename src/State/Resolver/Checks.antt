-- ===== src/State/Resolver/Checks.antt =====
-- state/mod.rs: the iterative auth checks of the state resolver, and the ordering of its power
-- events.
use kerux.Prelude.{ℕ, zero, suc, String, ◌≡◌, ◌≢◌, ◌⊎◌, refl, Bool, true}
use kerux.Prelude.{◌&&◌, some, List, [], ◌∷◌, Ordering, arith}
use kerux.Prelude.Equality.{◌==◌, string_eq, pair_eq, option_eq}
use kerux.Prelude.Lists.{any}
use kerux.Prelude.Maps.{HashMap, lookup, insert, lookup-insert}
use kerux.Errors.{Outcome, ok, running, ◌>>=◌, >>=-eq-ok}
use kerux.Mxid.{mxid_eq}
use kerux.Events.Room.{membership_eq}
use kerux.Events.Content.{Serde, get_type}
use kerux.Events.Pdu.{VersionedPdu, StoredPdu, Hashing, event_content, state_key, event_id}
use kerux.Events.Pdu.{auth_events}
use kerux.Storage.Reader.{Reader}
use kerux.State.{State, expect, insert_event}
use kerux.State.Sorting.{sort_by, insert_sorted}
use kerux.State.Resolver.{auth_types_for_event, fetch, fetch_present, fill_state}
use kerux.State.Resolver.{auth_step, iterative_auth_checks}
use kerux.State.Resolver.Graph.{fetch_all, order_rounds, no_parents, sender_power_levels}
use kerux.State.Resolver.Graph.{compare_candidates, reverse_topological_power_ordering}
use kerux.Validate.Auth.{auth_check_v1}

-- One step of the insertion, by how the two compare.
by_order :
    {A : Type 0} (order : Ordering) (x y : A) (ys rest : List A) {inserted : Outcome (List A)}
    → inserted ≡ ok rest
    → (zs : List A) × ((elim order [
      | Ordering.gt ↦ do zs ← inserted; ok (y ∷ zs)
      | _ ↦ ok (x ∷ y ∷ ys)
    ])
        ≡ ok zs)
by_order Ordering.gt x y ys rest e = (y ∷ rest, rw e refl)
by_order Ordering.lt x y ys rest e = (x ∷ y ∷ ys, refl)
by_order Ordering.eq x y ys rest e = (x ∷ y ∷ ys, refl)

module _ {J : Type 0} (S : Serde J) (H : Hashing J) where
  -- The event is the one that a state has at the key.
  abbrev pub supplies : String × String → String → VersionedPdu J → Bool
  supplies (kind, key) id pdu =
      get_type (event_content pdu) == kind && state_key pdu == some key && event_id S H pdu == id

  insert_event-eq :
      (pdu : VersionedPdu J) (st st' : State)
      → insert_event S H pdu st ≡ ok st'
      → (key : String) × (state_key pdu ≡ some key)
        × (st'.map ≡ insert (get_type (event_content pdu), key) (event_id S H pdu) st.map)
  unfolding insert_event
  insert_event-eq pdu st st' h =
      let (key, found, made) = >>=-eq-ok (expect (state_key pdu)) _ h in
      (key, ground arith, ground arith)

  inserted :
      (pdu : VersionedPdu J) (st st' : State) (key : String × String) (id : String)
      → insert_event S H pdu st ≡ ok st'
      → lookup key st'.map ≡ some id
      → (lookup key st.map ≡ some id) ⊎ (supplies key id pdu ≡ true)
  inserted pdu st st' (kind, key) id h found =
      let (own, has, entries) = insert_event-eq pdu st st' h in
      ground (
        arith,
        lookup-insert (kind, key) (get_type (event_content pdu), own) (event_id S H pdu) st.map,
      )

  module _ (is_server_name : String → Bool) (r : Reader J) where
    stepped :
        (pdu : VersionedPdu J) (st st' : State) (key : String × String) (id : String)
        → auth_step S H is_server_name r pdu st ≡ ok st'
        → lookup key st'.map ≡ some id
        → (lookup key st.map ≡ some id) ⊎ (supplies key id pdu ≡ true)
    unfolding auth_step
    stepped pdu st st' key id h found =
        let (events, _, h1) =
          >>=-eq-ok (fetch_present S H is_server_name r st.room_id (auth_events pdu)) _ h in
        let (keys, _, h2) = >>=-eq-ok (auth_types_for_event pdu) _ h1 in
        let (filled, _, h3) = >>=-eq-ok (fill_state S H is_server_name r events keys st) _ h2 in
        let (status, _, h4) = >>=-eq-ok (auth_check_v1 is_server_name r pdu filled) _ h3 in
        ground (arith, inserted pdu st st' key id)

    -- What the state has after the iterative auth checks it had before, or it is one of the events
    -- that were checked, at the event's own type and state key.
    pub iterative_auth_checks-supplies :
        (pdus : List (VersionedPdu J)) (st st' : State) (key : String × String) (id : String)
        → iterative_auth_checks S H is_server_name r pdus st ≡ ok st'
        → lookup key st'.map ≡ some id
        → (lookup key st.map ≡ some id) ⊎ (any (supplies key id) pdus ≡ true)
    unfolding iterative_auth_checks
    iterative_auth_checks-supplies [] st st' key id h found = ground arith
    iterative_auth_checks-supplies (pdu ∷ pdus) st st' key id h found =
        let (next, stepped_to, rest) = >>=-eq-ok (auth_step S H is_server_name r pdu st) _ h in
        ground (
          arith,
          iterative_auth_checks-supplies pdus next st' key id rest found,
          stepped pdu st next key id,
        )

    insert-ne-nil :
        (k : String) (v : StoredPdu J) (m : HashMap String (StoredPdu J)) → insert k v m ≢ []
    unfolding insert
    insert-ne-nil k v [] = ground arith
    insert-ne-nil k v (_ ∷ m) = ground arith

    -- The comparison of candidates always has a result, and so has the sort.
    insert_sorted_ok :
        {A : Type 0} (f : A → A → Ordering) (x : A) (xs : List A)
        → (ys : List A) × (insert_sorted (λ a b. ok (f a b)) x xs ≡ ok ys)
    unfolding insert_sorted
    insert_sorted_ok f x [] = (x ∷ [], refl)
    insert_sorted_ok f x (y ∷ ys) =
        let (rest, e) = insert_sorted_ok f x ys in by_order (f x y) x y ys rest e

    sort_by_ok :
        {A : Type 0} (f : A → A → Ordering) (xs : List A)
        → (ys : List A) × (sort_by (λ a b. ok (f a b)) xs ≡ ok ys)
    unfolding sort_by
    sort_by_ok f [] = ([], refl)
    sort_by_ok f (x ∷ xs) =
        let (rest, e) = sort_by_ok f xs in
        let (ys, e') = insert_sorted_ok f x rest in (ys, rw (e, e') refl)

    -- What one round finds out; every round asks it of the same events.
    abbrev pub levels_of : HashMap String (StoredPdu J) → Outcome (HashMap String ℕ)
    levels_of events =
        sender_power_levels S H is_server_name r (no_parents S H is_server_name r events events)

    order_rounds_runs :
        (rounds : ℕ) (event : String × StoredPdu J) (events : HashMap String (StoredPdu J))
        (ret : List String) (levels : HashMap String ℕ)
        → levels_of (event ∷ events) ≡ ok levels
        → order_rounds S H is_server_name r rounds (event ∷ events) ret ≡ running
    unfolding order_rounds
    order_rounds_runs zero event events ret levels h = refl
    order_rounds_runs (suc n) event events ret levels h =
        let candidates = no_parents S H is_server_name r (event ∷ events) (event ∷ events) in
        let (sorted, e) = sort_by_ok (compare_candidates S H is_server_name r levels) candidates in
        rw (h, e) (order_rounds_runs n event events _ levels h)

    some_events_run :
        (rounds : ℕ) (room id : String) (ids : List String) (events : HashMap String (StoredPdu J))
        (levels : HashMap String ℕ)
        → fetch_all S H is_server_name r room (id ∷ ids) ≡ ok events
        → levels_of events ≡ ok levels
        → order_rounds S H is_server_name r rounds events [] ≡ running
    unfolding fetch_all
    some_events_run rounds room id ids (event ∷ events) levels fetched h =
        order_rounds_runs rounds event events [] levels h
    some_events_run rounds room id ids [] levels fetched h =
        let (event, _, h1) = >>=-eq-ok (fetch S H is_server_name r room id) _ fetched in
        let (rest, _, h2) = >>=-eq-ok (fetch_all S H is_server_name r room ids) _ h1 in
        absurd (ground (arith, insert-ne-nil id event rest))

    -- The ordering of no power events is empty. Of one or more, which are in the storage, and whose
    -- candidates' senders have levels there, the loop is still running after any number of rounds:
    -- an event that was ordered stays in the map that the loop is to empty.
    pub reverse_topological_power_ordering_runs :
        (rounds : ℕ) (room id : String) (ids : List String) (events : HashMap String (StoredPdu J))
        (levels : HashMap String ℕ)
        → fetch_all S H is_server_name r room (id ∷ ids) ≡ ok events
        → levels_of events ≡ ok levels
        → (reverse_topological_power_ordering S H is_server_name r rounds room [] ≡ ok [])
          × (reverse_topological_power_ordering S H is_server_name r rounds room (id ∷ ids)
              ≡ running)
    unfolding reverse_topological_power_ordering order_rounds fetch_all
    reverse_topological_power_ordering_runs rounds room id ids events levels fetched h =
        (refl, rw fetched (some_events_run rounds room id ids events levels fetched h))
