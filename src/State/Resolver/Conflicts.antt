-- ===== src/State/Resolver/Conflicts.antt =====
-- state/mod.rs: which entries of the states a resolution of several events leaves alone.
use kerux.Prelude.{ℕ, String, ◌≡◌, ◌≢◌, refl, Bool, true, false}
use kerux.Prelude.{◌||◌, Option, none, some, List, [], ◌∷◌, arith}
use kerux.Prelude.Tests.{is_some, if◌then◌else◌}
use kerux.Prelude.Equality.{◌==◌, string_eq, pair_eq, ==_refl}
use kerux.Prelude.Lists.{all, any, All}
use kerux.Prelude.Maps.{HashMap, HashSet, lookup, insert, lookup-insert, NodupKeys, set_insert}
use kerux.Prelude.Maps.{insert-NodupKeys}
use kerux.Errors.{ok, >>=-eq-ok}
use kerux.Events.Room.{unwrap_or}
use kerux.Events.Content.{Serde}
use kerux.Events.Pdu.{Hashing}
use kerux.Storage.Reader.{Reader}
use kerux.State.{State}
use kerux.State.Resolver.Resolve.{add_entry, add_entries, state_set, unconflicted}
use kerux.State.Resolver.Resolve.{put_all, resolve_conflicts, only, resolve_checked}

-- What a set of states has at a key at which they agree.
abbrev at_most : String → Bool → Option (HashSet String)
at_most id b = if b then some (id ∷ []) else none

-- Each of the states has the event at the key, or nothing.
abbrev pub agrees : String × String → String → State → Bool
agrees key id st = elim (lookup key st.map) [ none ↦ true | some other ↦ other == id ]

abbrev pub has_key : String × String → State → Bool
has_key key st = is_some (lookup key st.map)

add_entry-other :
    (k key : String × String) (id : String) (states : HashMap (String × String) (HashSet String))
    → k ≢ key
    → lookup key (add_entry k id states) ≡ lookup key states
unfolding add_entry
add_entry-other k key id states differ =
    ground (arith, lookup-insert key k (set_insert id (unwrap_or (lookup k states) [])) states)

add_entry-same :
    (key : String × String) (id : String) (states : HashMap (String × String) (HashSet String))
    (b : Bool)
    → lookup key states ≡ at_most id b
    → lookup key (add_entry key id states) ≡ some (id ∷ [])
unfolding add_entry set_insert
add_entry-same key id states b h = ground (
  arith,
  lookup-insert key key (set_insert id (unwrap_or (lookup key states) [])) states,
  ==_refl key,
  ==_refl id,
)

add_entries-other :
    (entries : HashMap (String × String) String) (key : String × String)
    (states : HashMap (String × String) (HashSet String))
    → lookup key entries ≡ none
    → lookup key (add_entries entries states) ≡ lookup key states
unfolding add_entries lookup
add_entries-other [] key states h = refl
add_entries-other ((k, v) ∷ entries) key states h =
    ground
      (arith, add_entries-other entries key (add_entry k v states), add_entry-other k key v states)

add_entries-agreed :
    (entries : HashMap (String × String) String) (key : String × String) (id : String)
    (states : HashMap (String × String) (HashSet String)) (b : Bool)
    → NodupKeys entries
    → lookup key states ≡ at_most id b
    → lookup key entries ≡ some id
    → lookup key (add_entries entries states) ≡ some (id ∷ [])
unfolding add_entries lookup
add_entries-agreed [] key id states b u h found = cc
add_entries-agreed ((k, v) ∷ entries) key id states b (fresh, u) h found = ground (
  arith,
  add_entry-same key id states b h,
  add_entries-other entries key (add_entry k v states),
  add_entry-other k key v states,
  add_entries-agreed entries key id (add_entry k v states) b u,
)

state_set-agreed :
    (sts : List State) (key : String × String) (id : String)
    (states : HashMap (String × String) (HashSet String)) (b : Bool)
    → All (λ (st : State). NodupKeys st.map) sts
    → all (agrees key id) sts ≡ true
    → lookup key states ≡ at_most id b
    → lookup key (state_set sts states) ≡ at_most id (b || any (has_key key) sts)
unfolding state_set
state_set-agreed [] key id states b u agreed h = ground arith
state_set-agreed (st ∷ sts) key id states b (u, us) agreed h = ground (
  arith,
  add_entries-other st.map key states,
  add_entries-agreed st.map key id states b u h,
  state_set-agreed sts key id (add_entries st.map states) (b || has_key key st) us,
)

add_entries-NodupKeys :
    (entries : HashMap (String × String) String)
    (states : HashMap (String × String) (HashSet String))
    → NodupKeys states
    → NodupKeys (add_entries entries states)
unfolding add_entries add_entry
add_entries-NodupKeys [] states u = u
add_entries-NodupKeys ((k, v) ∷ entries) states u =
    add_entries-NodupKeys entries (add_entry k v states) (insert-NodupKeys k _ states u)

state_set-NodupKeys :
    (sts : List State) (states : HashMap (String × String) (HashSet String))
    → NodupKeys states
    → NodupKeys (state_set sts states)
unfolding state_set
state_set-NodupKeys [] states u = u
state_set-NodupKeys (st ∷ sts) states u =
    state_set-NodupKeys sts (add_entries st.map states) (add_entries-NodupKeys st.map states u)

lookup-unconflicted :
    (states : HashMap (String × String) (HashSet String)) (key : String × String)
    → NodupKeys states
    → lookup key (unconflicted states)
      ≡ elim (lookup key states) [ none ↦ none | some ids ↦ only ids ]
unfolding unconflicted lookup
lookup-unconflicted [] key u = refl
lookup-unconflicted ((k, ids) ∷ states) key (fresh, u) =
    ground (arith, lookup-unconflicted states key u)

unconflicted-NodupKeys :
    (states : HashMap (String × String) (HashSet String))
    → NodupKeys states
    → NodupKeys (unconflicted states)
unfolding unconflicted
unconflicted-NodupKeys [] u = tt
unconflicted-NodupKeys ((k, ids) ∷ states) (fresh, u) =
    ground (arith, unconflicted-NodupKeys states u, lookup-unconflicted states k u)

lookup-put_all :
    (fixed entries : HashMap (String × String) String) (key : String × String)
    → NodupKeys fixed
    → lookup key (put_all fixed entries)
      ≡ elim (lookup key fixed) [ none ↦ lookup key entries | some id ↦ some id ]
unfolding put_all lookup
lookup-put_all [] entries key u = refl
lookup-put_all ((k, id) ∷ fixed) entries key (fresh, u) =
    ground (arith, lookup-put_all fixed (insert k id entries) key u, lookup-insert key k id entries)

module _ {J : Type 0} (S : Serde J) (H : Hashing J) (is_server_name : String → Bool)
    (r : Reader J) where
  abbrev fixed_of : List State → HashMap (String × String) String
  fixed_of states = unconflicted (state_set states [])

  resolved_over_fixed :
      (rounds : ℕ) (room : String) (events : List String) (states : List State) (st : State)
      → resolve_conflicts S H is_server_name r rounds room events states ≡ ok st
      → (entries : HashMap (String × String) String) × (st.map ≡ put_all (fixed_of states) entries)
  unfolding resolve_conflicts
  resolved_over_fixed rounds room events states st h =
      let (resolved, _, made) =
        >>=-eq-ok (resolve_checked S H is_server_name r rounds room events (state_set states [])) _
          h in
      (resolved.map, ground arith)

  -- If the resolution of several events returns, the state that it returns has every event that the
  -- states after those events agree on: one of them has it at its key, and none has another there.
  pub resolve_conflicts-agreed :
      (rounds : ℕ) (room : String) (events : List String) (states : List State) (st : State)
      (key : String × String) (id : String)
      → All (λ (s : State). NodupKeys s.map) states
      → resolve_conflicts S H is_server_name r rounds room events states ≡ ok st
      → all (agrees key id) states ≡ true
      → any (has_key key) states ≡ true
      → lookup key st.map ≡ some id
  unfolding lookup
  resolve_conflicts-agreed rounds room events states st key id u h agreed has =
      let (entries, made) = resolved_over_fixed rounds room events states st h in
      let distinct = state_set-NodupKeys states [] tt in
      ground (
        arith,
        state_set-agreed states key id [] false u agreed refl,
        lookup-unconflicted (state_set states []) key distinct,
        lookup-put_all (fixed_of states) entries key
            (unconflicted-NodupKeys (state_set states []) distinct),
      )
