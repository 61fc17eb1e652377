-- ===== src/State/Resolver/Tests.antt =====
-- state/mod.rs: runs of the state resolver, and its theorems at a concrete room.
use kerux.Prelude.{ℕ, String, ◌≡◌, ◌↔◌, true, refl}
use kerux.Prelude.{some, List, [], ◌∷◌, ◌++◌, arith}
use kerux.Prelude.Equality.{pair_eq, string_eq}
use kerux.Prelude.Lists.{contains}
use kerux.Prelude.Maps.{HashSet, HashMap, lookup, set_insert}
use kerux.Errors.{ok, running}
use kerux.Events.Content.{topic}
use kerux.Events.Pdu.{VersionedPdu, StoredPdu, did_pass_auth}
use kerux.Validate.Auth.{is_pass}
use kerux.Storage.Mem.{MemStorage}
use kerux.Storage.Reader.{Reader, mem_reader}
use kerux.State.{State, insert_event}
use kerux.State.Sorting.{sort_by, insert_sorted}
use kerux.State.Resolver.{
  auth_types_for_event, fetch_present, fill_state, auth_step, is_power_event,
}
use kerux.State.Resolver.{iterative_auth_checks, mainline_cmp}
use kerux.State.Resolver.Graph.{
  visit, union_all, intersect_all, chains_difference, auth_chains_loop,
}
use kerux.Util.Sender.{get_sender_power_level}
use kerux.State.Resolver.Graph.{no_parents, sender_power_levels}
use kerux.State.Resolver.Graph.{all_chains, auth_difference, fetch_all, order_rounds, index_of}
use kerux.State.Resolver.Graph.{
  reverse_topological_power_ordering, first_power_levels, mainline_from,
}
use kerux.State.Resolver.Graph.{closest_mainline, with_mainlines}
use kerux.State.Resolver.Resolve.{
  resolve_v2, resolve_conflicts, resolve_checked, state_set, add_entry,
}
use kerux.State.Resolver.Resolve.{
  add_entries, unconflicted, conflicted, put_all, power_events, cached,
}
use kerux.State.Resolver.Resolve.{same_set}
use kerux.State.Resolver.Linear.{resolve_v2-replay, replay, CacheOk, nil-CacheOk}
use kerux.Prelude.{sym, subst, inl, inr}
use kerux.Prelude.Tests.{Bool-cases}
use kerux.Prelude.Equality.{◌==◌, ==-eq}
use kerux.Events.Pdu.{auth_events}
use kerux.State.Resolver.{fetch}
use kerux.Prelude.Lists.{all}
use kerux.State.Resolver.Enough.{IsClosed}
use kerux.State.Resolver.Difference.{contains-auth_difference, InSome, InEach}
use kerux.State.Resolver.Conflicts.{resolve_conflicts-agreed}
use kerux.State.Resolver.Checks.{reverse_topological_power_ordering_runs, levels_of}
use kerux.Fixtures.{
  runs, any_server, serde, hashing, reader, room_x, room_state, alice, make, passed,
}
use kerux.Fixtures.{create_pdu, join_pdu, levels_pdu, name_pdu, events, the_room, db}

resolver_runs : Unit {0}
unfolding runs is_pass did_pass_auth insert_event sort_by insert_sorted auth_types_for_event
    fetch_present fill_state auth_step is_power_event iterative_auth_checks mainline_cmp visit
    union_all intersect_all chains_difference auth_chains_loop all_chains auth_difference fetch_all
    order_rounds index_of reverse_topological_power_ordering first_power_levels mainline_from
    closest_mainline with_mainlines resolve_v2 resolve_conflicts resolve_checked state_set add_entry
    add_entries unconflicted conflicted put_all power_events cached same_set set_insert replay
resolver_runs = tt

-- The room's history, the last event first.
abbrev history : List (StoredPdu String)
history = passed levels_pdu ∷ passed join_pdu ∷ passed create_pdu ∷ []

replayed : replay serde hashing any_server reader room_x history ≡ ok room_state
unfolding resolver_runs
replayed = refl

resolve_v2-replay_example :
    ((resolve_v2 serde hashing any_server reader 9 room_x ("$p" ∷ []) []).0 ≡ ok room_state)
    × CacheOk serde hashing any_server reader room_x
        (resolve_v2 serde hashing any_server reader 9 room_x ("$p" ∷ []) []).1
unfolding resolver_runs
resolve_v2-replay_example =
    resolve_v2-replay serde hashing any_server reader room_x 9 "$p" history room_state []
      (refl, "$j", refl, (refl, "$c", refl, (refl, refl)))
      (nil-CacheOk serde hashing any_server reader room_x) (omega arith) replayed

-- A fork: a name and a topic, each right after the power levels.
abbrev topic_pdu : VersionedPdu String
topic_pdu =
    make "m" alice (topic (record { topic = some "two" })) (some "") ("$p" ∷ [])
      ("$c" ∷ "$p" ∷ "$j" ∷ [])

abbrev forked_db : MemStorage String
forked_db = record db {
  rooms =
      (room_x, record the_room { events = events ++ (passed name_pdu ∷ passed topic_pdu ∷ []) })
      ∷ [];
}

abbrev forked : Reader String
forked = mem_reader serde hashing forked_db

abbrev with_entry : String → String → State
with_entry kind id = record room_state { map = room_state.map ++ (((kind, ""), id) ∷ []) }

abbrev branches : List State
branches = with_entry "m.room.name" "$n" ∷ with_entry "m.room.topic" "$m" ∷ []

abbrev resolved : State
resolved = record {
  room_id = room_x;
  map = room_state.map ++ ((("m.room.name", ""), "$n") ∷ (("m.room.topic", ""), "$m") ∷ []);
}

fork_resolves :
    resolve_conflicts serde hashing any_server forked 9 room_x ("$n" ∷ "$m" ∷ []) branches
    ≡ ok resolved
unfolding resolver_runs
fork_resolves = refl

abbrev name_key : String × String
name_key = ("m.room.name", "")

resolve_conflicts-agreed_example : lookup name_key resolved.map ≡ some "$n"
unfolding resolver_runs
resolve_conflicts-agreed_example =
    resolve_conflicts-agreed serde hashing any_server forked 9 room_x ("$n" ∷ "$m" ∷ []) branches
      resolved name_key "$n"
      ((refl, (refl, (refl, (refl, tt)))), ((refl, (refl, (refl, (refl, tt)))), tt)) fork_resolves
      refl refl

abbrev of_the_levels : HashSet String
of_the_levels = "$j" ∷ "$c" ∷ []

differ :
    auth_difference serde hashing any_server reader 9 room_x ("$p" ∷ "$c" ∷ []) ≡ ok of_the_levels
unfolding resolver_runs
differ = refl

abbrev all_of_them : List String
all_of_them = "$p" ∷ "$j" ∷ "$c" ∷ []

abbrev StaysThere : String → Type 0
StaysThere id =
    (pdu : StoredPdu String) × (fetch serde hashing any_server reader room_x id ≡ ok pdu)
    × (all (contains all_of_them) (auth_events pdu.inner) ≡ true)

all_of_them-IsClosed : IsClosed serde hashing any_server reader room_x all_of_them
unfolding resolver_runs
all_of_them-IsClosed id h = elim (Bool-cases (id == "$p")) [
  | inl e ↦ subst StaysThere (sym (==-eq id "$p" e)) (passed levels_pdu, refl, refl)
  | inr not_p ↦ elim (Bool-cases (id == "$j")) [
    | inl e ↦ subst StaysThere (sym (==-eq id "$j" e)) (passed join_pdu, refl, refl)
    | inr not_j ↦ elim (Bool-cases (id == "$c")) [
      | inl e ↦ subst StaysThere (sym (==-eq id "$c" e)) (passed create_pdu, refl, refl)
      | inr not_c ↦ absurd (ground arith)
    ]
  ]
]

contains-auth_difference_example :
    (difference : HashSet String) × (auth_difference serde hashing any_server reader 9 room_x
        ("$p" ∷ "$c" ∷ [])
      ≡ ok difference)
    × ((x : String)
        → (contains difference x ≡ true) ↔ (
            InSome serde hashing any_server reader room_x x ("$p" ∷ "$c" ∷ [])
            × (¬ InEach serde hashing any_server reader room_x x ("$p" ∷ "$c" ∷ []))))
unfolding string_eq
contains-auth_difference_example =
    contains-auth_difference serde hashing any_server reader room_x 9 all_of_them "$p" ("$c" ∷ [])
      all_of_them-IsClosed refl (omega arith)

named :
    iterative_auth_checks serde hashing any_server forked (name_pdu ∷ []) room_state
    ≡ ok (with_entry "m.room.name" "$n")
unfolding resolver_runs
named = refl

abbrev nothing : List String
nothing = []

abbrev one_fetched : HashMap String (StoredPdu String)
one_fetched = ("$p", passed levels_pdu) ∷ []

fetched : fetch_all serde hashing any_server reader room_x ("$p" ∷ []) ≡ ok one_fetched
unfolding resolver_runs
fetched = refl

abbrev levels : HashMap String ℕ
levels = ("$p", 100) ∷ []

senders_have_levels : levels_of serde hashing any_server reader one_fetched ≡ ok levels
unfolding resolver_runs no_parents sender_power_levels get_sender_power_level
senders_have_levels = refl

reverse_topological_power_ordering_runs_example :
    (reverse_topological_power_ordering serde hashing any_server reader 9 room_x nothing
      ≡ ok nothing)
    × (reverse_topological_power_ordering serde hashing any_server reader 9 room_x ("$p" ∷ [])
        ≡ running)
reverse_topological_power_ordering_runs_example =
    reverse_topological_power_ordering_runs serde hashing any_server reader 9 room_x "$p" []
      one_fetched levels fetched senders_have_levels
