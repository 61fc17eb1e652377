-- ===== src/State/Resolver/Resolve.antt =====
-- state/mod.rs: `resolve_v2`, with its cache, which the callers share and every call may fill.
use kerux.Prelude.{ℕ, zero, suc, String, Bool, ◌&&◌, Option, none, some}
use kerux.Prelude.{List, [], ◌∷◌, map}
use kerux.Prelude.Tests.{is_some, if◌then◌else◌}
use kerux.Prelude.Equality.{string_eq, pair_eq}
use kerux.Prelude.Lists.{contains, all, keep}
use kerux.Prelude.Maps.{HashMap, HashSet, lookup, insert, contains_key, set_insert}
use kerux.Errors.{Outcome, ok, running, ◌>>=◌}
use kerux.Exec
use kerux.Exec.{Exec}
use kerux.Events.Room.{unwrap_or}
use kerux.Events.Content.{Serde}
use kerux.Events.Pdu.{VersionedPdu, StoredPdu, Hashing, state_key, prev_events, did_pass_auth}
use kerux.Storage.Reader.{Reader}
use kerux.State.{State, get, expect, insert_event}
use kerux.State.Sorting.{sort_by}
use kerux.State.Resolver.{is_power_event, mainline_cmp, fetch, fetch_present}
use kerux.State.Resolver.{iterative_auth_checks}
use kerux.State.Resolver.Graph.{union, auth_difference, reverse_topological_power_ordering}
use kerux.State.Resolver.Graph.{mainline_from, with_mainlines, difference}

-- The keys are sets of event identifiers: `BTreeSet`s are equal if they have the same elements.
abbrev pub Cache : Type 0
Cache = List (List String × State)

unfoldable pub same_set : List String → List String → Bool
same_set a b = all (contains b) a && all (contains a) b

unfoldable pub cached : List String → Cache → Option State
cached key [] = none
cached key ((k, st) ∷ cache) = if same_set key k then some st else cached key cache

abbrev pub keep_state : List String → State → Cache → Cache
keep_state key st cache = (key, st) ∷ cache

-- One pair of a state, into the map from keys to the events that the states have there.
unfoldable pub add_entry :
    String × String
    → String
    → HashMap (String × String) (HashSet String)
    → HashMap (String × String) (HashSet String)
add_entry key id states = insert key (set_insert id (unwrap_or (lookup key states) [])) states

unfoldable pub add_entries :
    HashMap (String × String) String
    → HashMap (String × String) (HashSet String)
    → HashMap (String × String) (HashSet String)
unfolding add_entry
add_entries [] states = states
add_entries ((key, id) ∷ entries) states = add_entries entries (add_entry key id states)

unfoldable pub state_set :
    List State
    → HashMap (String × String) (HashSet String)
    → HashMap (String × String) (HashSet String)
unfolding add_entries
state_set [] states = states
state_set (st ∷ sts) states = state_set sts (add_entries st.map states)

abbrev pub only : HashSet String → Option String
only (id ∷ []) = some id
only _ = none

-- The keys at which all states that have one agree.
unfoldable pub unconflicted :
    HashMap (String × String) (HashSet String) → HashMap (String × String) String
unconflicted [] = []
unconflicted ((key, ids) ∷ states) =
    let rest = unconflicted states in elim (only ids) [ none ↦ rest | some id ↦ (key, id) ∷ rest ]

-- The events of the other keys.
unfoldable pub conflicted : HashMap (String × String) (HashSet String) → HashSet String
conflicted [] = []
conflicted ((key, ids) ∷ states) =
    let rest = conflicted states in elim (only ids) [ none ↦ union ids rest | some id ↦ rest ]

-- Step 5: what was not in conflict stays as it was.
unfoldable pub put_all :
    HashMap (String × String) String
    → HashMap (String × String) String
    → HashMap (String × String) String
put_all [] entries = entries
put_all ((key, id) ∷ fixed) entries = put_all fixed (insert key id entries)

module _ {J : Type 0} (S : Serde J) (H : Hashing J) (is_server_name : String → Bool)
    (r : Reader J) where
  unfoldable pub power_events : String → List String → Outcome (HashSet String)
  power_events room [] = ok []
  power_events room (id ∷ ids) = do
    event ← fetch S H is_server_name r room id
    rest ← power_events room ids
    ok (if is_power_event event.inner then set_insert id rest else rest)

  abbrev pub state_events : List (StoredPdu J) → List (VersionedPdu J)
  state_events events =
      map (λ (e : StoredPdu J). e.inner)
        (keep (λ (e : StoredPdu J). is_some (state_key e.inner)) events)

  -- Steps 1 to 4, on the events and what the states after each of them have at every key.
  unfoldable pub resolve_checked :
      ℕ → String → List String → HashMap (String × String) (HashSet String) → Outcome State
  unfolding unconflicted conflicted
  resolve_checked rounds room events all_states = do
    auth_diff ← auth_difference S H is_server_name r rounds room events
    let full = union (conflicted all_states) auth_diff
    power ← power_events room full
    ordered ← reverse_topological_power_ordering S H is_server_name r rounds room power
    ordered_events ← fetch_present S H is_server_name r room ordered
    partial ←
        iterative_auth_checks S H is_server_name r (state_events ordered_events)
          (record { room_id = room; map = unconflicted all_states })
    start ← expect (get partial "m.room.power_levels" "")
    mainline ← mainline_from S H is_server_name r rounds room start
    closest ← with_mainlines S H is_server_name r rounds room mainline (difference full power)
    sorted ← sort_by (mainline_cmp S H) closest
    iterative_auth_checks S H is_server_name r
        (state_events (map (λ (e : StoredPdu J × Option ℕ). e.0) sorted)) partial

  -- All of them, with step 5.
  unfoldable pub resolve_conflicts : ℕ → String → List String → List State → Outcome State
  unfolding state_set unconflicted put_all
  resolve_conflicts rounds room events states = do
    let all_states = state_set states []
    resolved ← resolve_checked rounds room events all_states
    ok (record resolved { map = put_all (unconflicted all_states) resolved.map })

  -- The states that the cache has.
  pub from_cache : List String → Cache → HashMap String State → HashMap String State
  unfolding cached
  from_cache [] cache scratch = scratch
  from_cache (id ∷ ids) cache scratch =
      from_cache ids cache
        (elim (cached (id ∷ []) cache) [ none ↦ scratch | some st ↦ insert id st scratch ])

  -- The others, each resolved on its own.
  pub fill_gaps :
      (List String → Exec Cache State)
      → List String
      → HashMap String State
      → Exec Cache (HashMap String State)
  fill_gaps resolve [] scratch = Exec.pure scratch
  fill_gaps resolve (id ∷ ids) scratch =
      if contains_key id scratch
      then fill_gaps resolve ids scratch
      else Exec.◌>>=◌ (resolve (id ∷ [])) (λ st. fill_gaps resolve ids (insert id st scratch))

  abbrev pub apply_event : StoredPdu J → State → Outcome State
  apply_event event st =
      if did_pass_auth event && is_some (state_key event.inner)
      then insert_event S H event.inner st
      else ok st

  abbrev pub remember : String → State → Exec Cache State
  remember id st cache = (ok st, keep_state (id ∷ []) st cache)

  -- One event that the cache does not have.
  abbrev pub resolve_one : (List String → Exec Cache State) → String → String → Exec Cache State
  resolve_one resolve room id =
      Exec.◌>>=◌ (Exec.reads (λ _. fetch S H is_server_name r room id)) (λ event.
        Exec.◌>>=◌ (resolve (prev_events event.inner))
          (λ st. Exec.◌>>=◌ (Exec.reads (λ _. apply_event event st)) (remember id)))

  abbrev pub resolve_many :
      (List String → Exec Cache State) → ℕ → String → List String → Exec Cache State
  resolve_many resolve rounds room events cache =
      Exec.◌>>=◌ (fill_gaps resolve events (from_cache events cache []))
        (λ scratch.
          Exec.reads
            (λ _. resolve_conflicts rounds room events (map (λ (e : String × State). e.1) scratch)))
        cache

  abbrev pub resolve_new :
      (List String → Exec Cache State) → ℕ → String → List String → Exec Cache State
  resolve_new resolve rounds room (id ∷ []) = resolve_one resolve room id
  resolve_new resolve rounds room events = resolve_many resolve rounds room events

  -- `resolve_v2`, and `resolve`, which calls it.
  unfoldable pub resolve_v2 : ℕ → String → List String → Exec Cache State
  unfolding fill_gaps from_cache resolve_conflicts
  resolve_v2 rounds room [] cache = (ok (record { room_id = room; map = [] }), cache)
  resolve_v2 zero room (id ∷ ids) cache = (running, cache)
  resolve_v2 (suc rounds) room (id ∷ ids) cache = elim (cached (id ∷ ids) cache) [
    | some st ↦ (ok st, cache)
    | none ↦ resolve_new (resolve_v2 rounds room) rounds room (id ∷ ids) cache
  ]
