-- ===== src/State/Resolver/Graph.antt =====
-- state/mod.rs: `auth_chains`, `auth_difference`, `reverse_topological_power_ordering` and the
-- mainline of power levels, which follow the auth events through the storage.
use Prim.Native.String.{compare as compare_string}
use kerux.Prelude.{ℕ, zero, suc, String, Bool, not, Option, none, some}
use kerux.Prelude.{List, [], ◌∷◌, ◌++◌, map, compare, Ordering}
use kerux.Prelude.Tests.{if◌then◌else◌}
use kerux.Prelude.Equality.{◌==◌, string_eq}
use kerux.Prelude.Lists.{contains, any, keep}
use kerux.Prelude.Ints.{compare_ℤ}
use kerux.Prelude.Maps.{HashMap, HashSet, lookup, insert, set_insert}
use kerux.Errors.{Outcome, ok, panic, running, ◌>>=◌}
use kerux.Events.Content.{power_levels, Serde}
use kerux.Events.Pdu.{StoredPdu, Hashing, event_content, room_id, auth_events, origin_server_ts}
use kerux.Storage.Reader.{Reader}
use kerux.State.Sorting.{sort_by}
use kerux.State.Resolver.{then_by, stored_id, fetch}
use kerux.Util.Sender.{get_sender_power_level}

-- The inner loop of `auth_chains`, over the auth events of one event: what was met, and the stack.
unfoldable pub visit : List String → HashSet String → List String → HashSet String × List String
visit [] ret to_check = (ret, to_check)
visit (id ∷ ids) ret to_check =
    visit ids (set_insert id ret) (if contains ret id then to_check else id ∷ to_check)

abbrev pub union : HashSet String → HashSet String → HashSet String
union [] ys = ys
union (x ∷ xs) ys = let rest = union xs ys in if contains rest x then rest else x ∷ rest

abbrev pub intersection : HashSet String → HashSet String → HashSet String
intersection xs ys = keep (contains ys) xs

abbrev pub difference : HashSet String → HashSet String → HashSet String
difference xs ys = keep (λ x. not (contains ys x)) xs

-- The two folds of `auth_difference`.
unfoldable pub union_all : List (HashSet String) → HashSet String → HashSet String
union_all [] acc = acc
union_all (x ∷ xs) acc = union_all xs (union acc x)

unfoldable pub intersect_all : List (HashSet String) → HashSet String → HashSet String
intersect_all [] acc = acc
intersect_all (x ∷ xs) acc = intersect_all xs (intersection acc x)

-- What is in some of the chains, and not in all of them.
unfoldable pub chains_difference : HashSet String → List (HashSet String) → HashSet String
unfolding union_all intersect_all
chains_difference first chains =
    difference (union_all (first ∷ chains) []) (intersect_all (first ∷ chains) first)

module _ {J : Type 0} (S : Serde J) (H : Hashing J) (is_server_name : String → Bool)
    (r : Reader J) where
  -- The loop of `auth_chains`, with the top of the stack first.
  unfoldable pub auth_chains_loop :
      ℕ → String → HashSet String → List String → Outcome (HashSet String)
  auth_chains_loop rounds room ret [] = ok ret
  auth_chains_loop zero room ret (id ∷ to_check) = running
  auth_chains_loop (suc rounds) room ret (id ∷ to_check) = do
    pdu ← fetch S H is_server_name r room id
    let (ret', to_check') = visit (auth_events pdu.inner) ret to_check
    auth_chains_loop rounds room ret' to_check'

  -- `auth_chains` of one event, as it is called.
  abbrev pub auth_chains : ℕ → String → String → Outcome (HashSet String)
  auth_chains rounds room id = auth_chains_loop rounds room [] (id ∷ [])

  unfoldable pub all_chains : ℕ → String → List String → Outcome (List (HashSet String))
  unfolding auth_chains_loop
  all_chains rounds room [] = ok []
  all_chains rounds room (id ∷ ids) = do
    chain ← auth_chains rounds room id
    chains ← all_chains rounds room ids
    ok (chain ∷ chains)

  abbrev pub difference_of : List (HashSet String) → Outcome (HashSet String)
  difference_of [] = panic
  difference_of (first ∷ chains) = ok (chains_difference first chains)

  unfoldable pub auth_difference : ℕ → String → List String → Outcome (HashSet String)
  auth_difference rounds room [] = panic
  auth_difference rounds room (id ∷ []) = ok []
  auth_difference rounds room ids = do chains ← all_chains rounds room ids; difference_of chains

  -- The events of `reverse_topological_power_ordering`, by identifier.
  unfoldable pub fetch_all : String → List String → Outcome (HashMap String (StoredPdu J))
  fetch_all room [] = ok []
  fetch_all room (id ∷ ids) = do
    event ← fetch S H is_server_name r room id
    events ← fetch_all room ids
    ok (insert id event events)

  -- The events that no event of the map names as an auth event.
  unfoldable pub no_parents :
      HashMap String (StoredPdu J) → HashMap String (StoredPdu J) → List (StoredPdu J)
  no_parents events [] = []
  no_parents events ((id, event) ∷ rest) =
      let others = no_parents events rest in
      if any (λ (entry : String × StoredPdu J). contains (auth_events entry.1.inner) id) events
      then others
      else event ∷ others

  unfoldable pub sender_power_levels : List (StoredPdu J) → Outcome (HashMap String ℕ)
  sender_power_levels [] = ok []
  sender_power_levels (event ∷ candidates) = do
    level ← get_sender_power_level r (room_id event.inner) (stored_id S H event)
    levels ← sender_power_levels candidates
    ok (insert (stored_id S H event) level levels)

  abbrev compare_level : Option ℕ → Option ℕ → Ordering
  compare_level none none = Ordering.eq
  compare_level none (some n) = Ordering.lt
  compare_level (some m) none = Ordering.gt
  compare_level (some m) (some n) = compare m n

  pub compare_candidates : HashMap String ℕ → StoredPdu J → StoredPdu J → Ordering
  compare_candidates levels a b =
      then_by (compare_level (lookup (stored_id S H a) levels) (lookup (stored_id S H b) levels)) (
        then_by (compare_ℤ (origin_server_ts a.inner) (origin_server_ts b.inner))
          (compare_string (stored_id S H a) (stored_id S H b)))

  -- `while events.len() > 0`. The candidates are drained in every round, the events never are.
  unfoldable pub order_rounds :
      ℕ → HashMap String (StoredPdu J) → List String → Outcome (List String)
  unfolding sender_power_levels
  order_rounds rounds [] ret = ok ret
  order_rounds zero (event ∷ events) ret = running
  order_rounds (suc rounds) (event ∷ events) ret = do
    let candidates = no_parents (event ∷ events) (event ∷ events)
    levels ← sender_power_levels candidates
    sorted ← sort_by (λ a b. ok (compare_candidates levels a b)) candidates
    order_rounds rounds (event ∷ events) (ret ++ map (stored_id S H) sorted)

  unfoldable pub reverse_topological_power_ordering :
      ℕ → String → HashSet String → Outcome (List String)
  unfolding fetch_all
  reverse_topological_power_ordering rounds room ids = do
    events ← fetch_all room ids
    order_rounds rounds events []

  -- The closure `get_power_levels`: the first auth event with power levels.
  unfoldable pub first_power_levels : String → List String → Outcome (Option String)
  first_power_levels room [] = ok none
  first_power_levels room (id ∷ ids) = do
    event ← fetch S H is_server_name r room id
    (elim (event_content event.inner) [
      | power_levels c ↦ ok (some id)
      | _ ↦ first_power_levels room ids
    ])

  abbrev parent_levels : String → String → Outcome (Option String)
  parent_levels room id = do
    event ← fetch S H is_server_name r room id
    first_power_levels room (auth_events event.inner)

  -- The mainline from one event on.
  unfoldable pub mainline_from : ℕ → String → String → Outcome (List String)
  unfolding first_power_levels
  mainline_from zero room current = running
  mainline_from (suc rounds) room current = do
    parent ← parent_levels room current
    (elim parent [
      | none ↦ ok (current ∷ [])
      | some id ↦ do rest ← mainline_from rounds room id; ok (current ∷ rest)
    ])

  unfoldable pub index_of : String → List String → Option ℕ
  index_of id [] = none
  index_of id (x ∷ xs) =
      if x == id then some 0 else elim (index_of id xs) [ none ↦ none | some i ↦ some (suc i) ]

  -- The inner loop: how far along the mainline an event hangs; `none` is `usize::MAX`.
  unfoldable pub closest_mainline : ℕ → String → List String → String → Outcome (Option ℕ)
  unfolding first_power_levels
  closest_mainline zero room mainline current = running
  closest_mainline (suc rounds) room mainline current = elim (index_of current mainline) [
    | some i ↦ ok (some i)
    | none ↦ do
      parent ← parent_levels room current
      (elim parent [ none ↦ ok none | some id ↦ closest_mainline rounds room mainline id ])
  ]

  unfoldable pub with_mainlines :
      ℕ → String → List String → List String → Outcome (List (StoredPdu J × Option ℕ))
  unfolding closest_mainline
  with_mainlines rounds room mainline [] = ok []
  with_mainlines rounds room mainline (id ∷ ids) = do
    closest ← closest_mainline rounds room mainline id
    event ← fetch S H is_server_name r room id
    rest ← with_mainlines rounds room mainline ids
    ok ((event, closest) ∷ rest)
