-- ===== src/State/Resolver/Difference.antt =====
-- state/mod.rs: what the auth difference of several events holds.
use kerux.Prelude.{ℕ, String, ◌≡◌, refl, sym, ap, ◌∙◌, subst, ◌↔◌, ◌⊎◌, inl, inr, Bool, true, false}
use kerux.Prelude.{◌&&◌, ◌||◌, not, List, [], ◌∷◌, arith}
use kerux.Prelude.Equality.{string_eq, pair_eq}
use kerux.Prelude.Lists.{contains, length, all, any, All, contains-keep}
use kerux.Prelude.Maps.{HashSet}
use kerux.State.Resolver.Graph.{union, intersection, union_all, intersect_all}
use kerux.State.Resolver.Graph.{chains_difference, all_chains, auth_chains, auth_difference}
use kerux.State.Resolver.Graph.{difference_of}
use Prim.Native.Nat.{◌<◌}
use kerux.State.Resolver.Enough.{IsClosed, all_chains_returns}
use kerux.State.Resolver.Chains.{InChain, contains-auth_chains}
use kerux.Errors.{ok, >>=-eq-ok, ok-injective}
use kerux.Events.Content.{Serde}
use kerux.Events.Pdu.{Hashing}
use kerux.Storage.Reader.{Reader}

contains-union :
    (xs ys : HashSet String) (x : String)
    → contains (union xs ys) x ≡ (contains xs x || contains ys x)
contains-union [] ys x = refl
contains-union (y ∷ xs) ys x = ground (arith, contains-union xs ys x, contains-union xs ys y)

contains-union_all :
    (chains : List (HashSet String)) (acc : HashSet String) (x : String)
    → contains (union_all chains acc) x
      ≡ (contains acc x || any (λ (c : HashSet String). contains c x) chains)
unfolding union_all
contains-union_all [] acc x = ground arith
contains-union_all (c ∷ chains) acc x =
    ground (arith, contains-union_all chains (union acc c) x, contains-union acc c x)

contains-intersect_all :
    (chains : List (HashSet String)) (acc : HashSet String) (x : String)
    → contains (intersect_all chains acc) x
      ≡ (contains acc x && all (λ (c : HashSet String). contains c x) chains)
unfolding intersect_all
contains-intersect_all [] acc x = ground arith
contains-intersect_all (c ∷ chains) acc x =
    ground (
      arith,
      contains-intersect_all chains (intersection acc c) x,
      contains-keep (contains c) acc x,
    )

contains-chains_difference :
    (first : HashSet String) (chains : List (HashSet String)) (x : String)
    → contains (chains_difference first chains) x ≡ (
        any (λ (c : HashSet String). contains c x) (first ∷ chains)
        && not (all (λ (c : HashSet String). contains c x) (first ∷ chains)))
unfolding chains_difference
contains-chains_difference first chains x = ground (
  arith,
  contains-keep (λ y. not (contains (intersect_all (first ∷ chains) first) y))
      (union_all (first ∷ chains) []) x,
  contains-union_all (first ∷ chains) [] x,
  contains-intersect_all (first ∷ chains) first x,
)

ff-tt : false ≡ true → ⊥
ff-tt h = cc

or_parts :
    (a b : Bool) {P Q : Type 0} → ((a ≡ true) ↔ P) → ((b ≡ true) ↔ Q) → ((a || b) ≡ true) ↔ (P ⊎ Q)
or_parts true b p q = (λ h. inl (p.0 refl), λ h. refl)
or_parts false b p q =
    (λ h. inr (q.0 h), λ h. elim h [ inl x ↦ absurd (ff-tt (p.1 x)) | inr y ↦ q.1 y ])

and_parts :
    (a b : Bool) {P Q : Type 0} → ((a ≡ true) ↔ P) → ((b ≡ true) ↔ Q) → ((a && b) ≡ true) ↔ (P × Q)
and_parts true b p q = (λ h. (p.0 refl, q.0 h), λ (x, y). q.1 y)
and_parts false b p q = (λ h. cc, λ (x, y). p.1 x)

but_parts :
    (a b : Bool) {P Q : Type 0}
    → ((a ≡ true) ↔ P)
    → ((b ≡ true) ↔ Q)
    → ((a && not b) ≡ true) ↔ (P × (¬ Q))
but_parts a true p q = (λ h. absurd (ground arith), λ (x, n). absurd (n (q.0 refl)))
but_parts a false p q =
    (λ h. (p.0 (ground arith), λ y. ff-tt (q.1 y)), λ (x, n). let known = p.1 x in ground arith)

module _ {J : Type 0} (S : Serde J) (H : Hashing J) (is_server_name : String → Bool) (r : Reader J)
    (room : String) where
  abbrev pub IsBelow : String → String → Type 0
  IsBelow x id = InChain S H is_server_name r room id x

  -- The event is in the auth chain of one of these.
  abbrev pub InSome : String → List String → Type 0
  InSome x [] = ⊥
  InSome x (id ∷ ids) = IsBelow x id ⊎ InSome x ids

  abbrev pub InEach : String → List String → Type 0
  InEach x ids = All (IsBelow x) ids

  some_each :
      (rounds : ℕ) (ids : List String) (chains : List (HashSet String)) (x : String)
      → all_chains S H is_server_name r rounds room ids ≡ ok chains
      → ((any (λ (c : HashSet String). contains c x) chains ≡ true) ↔ InSome x ids)
        × ((all (λ (c : HashSet String). contains c x) chains ≡ true) ↔ InEach x ids)
  unfolding all_chains
  some_each rounds [] chains x e =
      subst
        (λ (cs : List (HashSet String)).
          ((any (λ (c : HashSet String). contains c x) cs ≡ true) ↔ ⊥)
          × ((all (λ (c : HashSet String). contains c x) cs ≡ true) ↔ Unit {0}))
        (ok-injective [] chains e) ((λ h. cc, λ h. absurd h), (λ h. tt, λ h. refl))
  some_each rounds (id ∷ ids) chains x e =
      let (chain, h0, h1) = >>=-eq-ok (auth_chains S H is_server_name r rounds room id) _ e in
      let (rest, h2, h3) = >>=-eq-ok (all_chains S H is_server_name r rounds room ids) _ h1 in
      let (to, from) = contains-auth_chains S H is_server_name r room rounds id chain x h0 in
      let ((some_to, some_from), (each_to, each_from)) = some_each rounds ids rest x h2 in
      subst
        (λ (cs : List (HashSet String)).
          ((any (λ (c : HashSet String). contains c x) cs ≡ true) ↔ InSome x (id ∷ ids))
          × ((all (λ (c : HashSet String). contains c x) cs ≡ true) ↔ InEach x (id ∷ ids)))
        (ok-injective (chain ∷ rest) chains h3)
        (
          or_parts (contains chain x) (any (λ (c : HashSet String). contains c x) rest) (to, from)
              (some_to, some_from),
          and_parts (contains chain x) (all (λ (c : HashSet String). contains c x) rest) (to, from)
              (each_to, each_from),
        )

  from_chains :
      (ids : List String) (chains : List (HashSet String)) (out : HashSet String) (x : String)
      → difference_of S H is_server_name r chains ≡ ok out
      → ((any (λ (c : HashSet String). contains c x) chains ≡ true) ↔ InSome x ids)
        × ((all (λ (c : HashSet String). contains c x) chains ≡ true) ↔ InEach x ids)
      → (contains out x ≡ true) ↔ (InSome x ids × (¬ InEach x ids))
  from_chains ids [] out x e parts = cc
  from_chains ids (first ∷ chains) out x e (some_in, all_in) =
      subst (λ b. (b ≡ true) ↔ (InSome x ids × (¬ InEach x ids)))
        (sym (contains-chains_difference first chains x)
          ∙ ap (λ (c : HashSet String). contains c x) (ok-injective _ out e))
        (but_parts _ _ some_in all_in)

  differing :
      (rounds : ℕ) (id : String) (ids : List String) (difference : HashSet String) (x : String)
      → auth_difference S H is_server_name r rounds room (id ∷ ids) ≡ ok difference
      → (contains difference x ≡ true) ↔ (InSome x (id ∷ ids) × (¬ InEach x (id ∷ ids)))
  unfolding auth_difference
  differing rounds id [] difference x e = (
    λ h.
        let none_in : contains [] x ≡ true =
          subst (λ (c : HashSet String). contains c x ≡ true) (sym (ok-injective [] difference e))
            h in
        absurd (ff-tt none_in),
    λ (some_in, not_each). elim some_in [
      | inl below ↦ absurd (not_each (below, tt))
      | inr nowhere ↦ absurd nowhere
    ],
  )
  differing rounds id (other ∷ ids) difference x e =
      let (chains, h0, h1) =
        >>=-eq-ok (all_chains S H is_server_name r rounds room (id ∷ other ∷ ids)) _ e in
      from_chains (id ∷ other ∷ ids) chains difference x h1
        (some_each rounds (id ∷ other ∷ ids) chains x h0)

  difference_of_returns :
      (rounds : ℕ) (id : String) (ids : List String) (chains : List (HashSet String))
      → all_chains S H is_server_name r rounds room (id ∷ ids) ≡ ok chains
      → (difference : HashSet String) × (difference_of S H is_server_name r chains ≡ ok difference)
  unfolding all_chains
  difference_of_returns rounds id ids (first ∷ chains) e = (chains_difference first chains, refl)
  difference_of_returns rounds id ids [] e =
      let (chain, _, h) = >>=-eq-ok (auth_chains S H is_server_name r rounds room id) _ e in
      let (rest, _, h1) = >>=-eq-ok (all_chains S H is_server_name r rounds room ids) _ h in cc

  auth_difference_returns :
      (rounds : ℕ) (known : List String) (id : String) (ids : List String)
      → IsClosed S H is_server_name r room known
      → all (contains known) (id ∷ ids) ≡ true
      → length known < rounds
      → (difference : HashSet String) × (auth_difference S H is_server_name r rounds room (id ∷ ids)
          ≡ ok difference)
  unfolding auth_difference
  auth_difference_returns rounds known id [] closed are le = ([], refl)
  auth_difference_returns rounds known id (other ∷ ids) closed are le =
      let (chains, e) =
        all_chains_returns S H is_server_name r room known closed rounds (id ∷ other ∷ ids) le
          are in
      let (difference, e') = difference_of_returns rounds id (other ∷ ids) chains e in
      (difference, rw e e')

  -- Where these events and all below them, by the auth events that they name, are in the storage,
  -- and the rounds are more than those events, the auth difference of one event or more returns. It
  -- has exactly the events that are in the auth chain of one of them and not in the auth chains of
  -- all. An event's auth chain has its auth events, their auth events, and so on.
  pub contains-auth_difference :
      (rounds : ℕ) (known : List String) (id : String) (ids : List String)
      → IsClosed S H is_server_name r room known
      → all (contains known) (id ∷ ids) ≡ true
      → length known < rounds
      → (difference : HashSet String) × (auth_difference S H is_server_name r rounds room (id ∷ ids)
          ≡ ok difference)
        × ((x : String)
            → (contains difference x ≡ true) ↔ (InSome x (id ∷ ids) × (¬ InEach x (id ∷ ids))))
  contains-auth_difference rounds known id ids closed are le =
      let (difference, e) = auth_difference_returns rounds known id ids closed are le in
      (difference, e, λ x. differing rounds id ids difference x e)
