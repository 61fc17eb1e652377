-- ===== src/Prelude/Maps.antt =====
-- `HashMap` and `HashSet` of the standard library. The order of a list of entries stands for the
-- unspecified order in which Rust iterates.
use mathlib.Core.Path.{◌≡◌, refl}
use mathlib.Core.Bool.{Bool, true, false, ◌||◌, not}
use mathlib.Core.Option.{Option, none, some}
use mathlib.Core.List.{List, [], ◌∷◌}
use native.Mathlib.Omega.{arith}
use kerux.Prelude.Tests.{if◌then◌else◌}
use kerux.Prelude.Equality.{Eq, ◌==◌, ==_refl}
use kerux.Prelude.Lists.{contains, keep}

abbrev pub HashMap {ℓ κ} : Type ℓ → Type κ → Type (ℓ ⊔ κ)
HashMap K V = List (K × V)

abbrev pub HashSet {ℓ} : Type ℓ → Type ℓ
HashSet K = List K

module _ {ℓ κ} {K : Type ℓ} {V : Type κ} ⦃e : Eq K⦄ where
  -- `map.get(&k)`
  unfoldable pub lookup : K → HashMap K V → Option V
  lookup k [] = none
  lookup k ((j, v) ∷ m) = if k == j then some v else lookup k m

  -- `map.insert(k, v)`
  unfoldable pub insert : K → V → HashMap K V → HashMap K V
  insert k v [] = (k, v) ∷ []
  insert k v ((j, w) ∷ m) = if k == j then (k, v) ∷ m else (j, w) ∷ insert k v m

  -- `map.remove(&k)`
  unfoldable pub remove : K → HashMap K V → HashMap K V
  remove k [] = []
  remove k ((j, w) ∷ m) = let rest = remove k m in if k == j then rest else (j, w) ∷ rest

  -- `map.contains_key(&k)`
  unfoldable pub contains_key : K → HashMap K V → Bool
  unfolding lookup
  contains_key k m = elim (lookup k m) [ none ↦ false | some v ↦ true ]

  -- `map.retain(p)`
  unfoldable pub retain : (K → V → Bool) → HashMap K V → HashMap K V
  retain p [] = []
  retain p ((k, v) ∷ m) = let rest = retain p m in if p k v then (k, v) ∷ rest else rest

  -- No key is bound twice, as in a real map.
  abbrev pub NodupKeys : HashMap K V → Type κ
  NodupKeys [] = Unit
  NodupKeys ((k, v) ∷ m) = (lookup k m ≡ none) × NodupKeys m

  pub lookup-nil : (k : K) → lookup k [] ≡ none
  unfolding lookup
  lookup-nil k = refl

  pub lookup-cons :
      (j k : K) (v : V) (m : HashMap K V)
      → lookup j ((k, v) ∷ m) ≡ (if j == k then some v else lookup j m)
  unfolding lookup
  lookup-cons j k v m = refl

  pub lookup-insert :
      (j k : K) (v : V) (m : HashMap K V)
      → lookup j (insert k v m) ≡ (if j == k then some v else lookup j m)
  unfolding lookup insert
  lookup-insert j k v [] = refl
  lookup-insert j k v (_ ∷ m) = ground (arith, lookup-insert j k v m)

  pub lookup-insert_self : (k : K) (v : V) (m : HashMap K V) → lookup k (insert k v m) ≡ some v
  lookup-insert_self k v m = rw (lookup-insert, ==_refl)

  pub lookup-remove :
      (j k : K) (m : HashMap K V) → lookup j (remove k m) ≡ (if j == k then none else lookup j m)
  unfolding lookup remove
  lookup-remove j k [] = ground arith
  lookup-remove j k (_ ∷ m) = ground (arith, lookup-remove j k m)

  pub insert-NodupKeys : (k : K) (v : V) (m : HashMap K V) → NodupKeys m → NodupKeys (insert k v m)
  unfolding insert
  insert-NodupKeys k v [] _ = (lookup-nil k, tt)
  insert-NodupKeys k v ((j, _) ∷ m) (fresh, u) =
      ground (arith, insert-NodupKeys k v m u, lookup-insert j k v m)

  lookup-retain-none :
      (p : K → V → Bool) (j : K) (m : HashMap K V)
      → lookup j m ≡ none
      → lookup j (retain p m) ≡ none
  unfolding lookup retain
  lookup-retain-none p j [] h = refl
  lookup-retain-none p j ((k, v) ∷ m) h = ground (arith, lookup-retain-none p j m)

  -- A binding that fails the test is gone; every other stays.
  pub lookup-retain :
      (p : K → V → Bool) (j : K) (m : HashMap K V)
      → NodupKeys m
      → lookup j (retain p m)
        ≡ elim (lookup j m) [ none ↦ none | some v ↦ if p j v then some v else none ]
  unfolding lookup retain
  lookup-retain p j [] u = refl
  lookup-retain p j ((k, v) ∷ m) (fresh, u) =
      ground (arith, lookup-retain p j m u, lookup-retain-none p k m fresh)

  pub remove-NodupKeys : (k : K) (m : HashMap K V) → NodupKeys m → NodupKeys (remove k m)
  unfolding remove
  remove-NodupKeys k [] _ = tt
  remove-NodupKeys k ((j, _) ∷ m) (fresh, u) =
      ground (arith, remove-NodupKeys k m u, lookup-remove j k m)

  pub retain-NodupKeys : (p : K → V → Bool) (m : HashMap K V) → NodupKeys m → NodupKeys (retain p m)
  unfolding retain
  retain-NodupKeys p [] _ = tt
  retain-NodupKeys p ((j, _) ∷ m) (fresh, u) =
      ground (arith, retain-NodupKeys p m u, lookup-retain-none p j m fresh)

module _ {ℓ} {K : Type ℓ} ⦃e : Eq K⦄ where
  -- `set.insert(k)`: the set, and whether the value was not in it.
  unfoldable pub set_insert : K → HashSet K → HashSet K
  set_insert k s = if contains s k then s else k ∷ s

  unfoldable pub set_remove : K → HashSet K → HashSet K
  set_remove k s = keep (λ j. not (k == j)) s

  pub contains-set_insert :
      (j k : K) (s : HashSet K) → contains (set_insert k s) j ≡ (j == k || contains s j)
  unfolding set_insert
  contains-set_insert j k s = ground arith
