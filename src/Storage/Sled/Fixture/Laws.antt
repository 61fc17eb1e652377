-- ===== src/Storage/Sled/Fixture/Laws.antt =====
-- The stand-in does what is documented of the trees of orders.
use kerux.Prelude.{
  ℕ, Bool, true, ◌&&◌, none, some, List, [], ◌∷◌, refl, sym, ap, subst, inl, inr, ◌≡◌, arith,
}
use kerux.Prelude.Tests.{is_some, Bool-cases}
use kerux.Prelude.Equality.{nat_eq, list_eq, ==_refl}
use kerux.Prelude.Lists.{keep, last?, is_empty}
use kerux.Prelude.Maps.{lookup, HashMap}
use kerux.Errors.{ok, ok-injective}
use kerux.Storage.Sled.Fixture.{Bytes, stand_in, order_trees, bytes_in_range}
use kerux.Storage.Sled.Rooms.Keys.{le_bytes}
use kerux.Storage.Sled.Rooms.Orders.{IsOrders}
use kerux.Storage.Sled.Rooms.Search.{IsRange, EachKey}

no_last : (m : HashMap (List ℕ) Bytes) → last? m ≡ none → m ≡ []
no_last [] h = refl
no_last (x ∷ []) h = cc
no_last (x ∷ y ∷ m) h = let rest = no_last (y ∷ m) h in cc

pub stand_in-IsOrders : IsOrders stand_in
stand_in-IsOrders = record {
  last_new = refl;
  open_lem = λ name m t e. sym (ok-injective _ _ e);
  is_empty_lem = λ t e. ap is_empty (no_last t.0 (ok-injective _ _ e));
}

module _ (P Q : List ℕ → Type 0) where
  EachKey-keep :
      (f : List ℕ → Bool) (m : HashMap (List ℕ) Bytes)
      → ((k : List ℕ) → f k ≡ true → P k → Q k)
      → EachKey P m
      → EachKey Q (keep (λ (x : List ℕ × Bytes). f x.0) m)
  unfolding EachKey
  EachKey-keep f [] h e = tt
  EachKey-keep f ((k, v) ∷ m) h (p, ps) =
      let rest = EachKey-keep f m h ps in
      elim (Bool-cases (f k)) [
        | inl kept ↦ rw kept (h k kept p, rest)
        | inr dropped ↦ rw dropped rest
      ]

EachKey-weaken :
    (P Q : List ℕ → Type 0) (m : HashMap (List ℕ) Bytes)
    → ((k : List ℕ) → P k → Q k)
    → EachKey P m
    → EachKey Q m
unfolding EachKey
EachKey-weaken P Q [] h e = tt
EachKey-weaken P Q ((k, v) ∷ m) h (p, ps) = (h k p, EachKey-weaken P Q m h ps)

present_first :
    (k : List ℕ) (v : Bytes) (m : HashMap (List ℕ) Bytes) → is_some (lookup k ((k, v) ∷ m)) ≡ true
unfolding lookup
present_first k v m = rw (==_refl k) refl

and_right : (a b : Bool) → (a && b) ≡ true → b ≡ true
and_right a b h = ground arith

present_later :
    (k j : List ℕ) (v : Bytes) (m : HashMap (List ℕ) Bytes)
    → is_some (lookup j m) ≡ true
    → is_some (lookup j ((k, v) ∷ m)) ≡ true
unfolding lookup
present_later k j v m h = ground arith

EachKey-present : (m : HashMap (List ℕ) Bytes) → EachKey (λ k. is_some (lookup k m) ≡ true) m
unfolding EachKey
EachKey-present [] = tt
EachKey-present ((k, v) ∷ m) = (
  present_first k v m,
  EachKey-weaken (λ j. is_some (lookup j m) ≡ true) (λ j. is_some (lookup j ((k, v) ∷ m)) ≡ true) m
      (λ j. present_later k j v m) (EachKey-present m),
)

pub range_within :
    (from to : List ℕ) (t : order_trees.Tree) (es : HashMap (List ℕ) Bytes)
    → order_trees.range from (some to) t ≡ ok es
    → EachKey (λ k. (is_some (lookup k t.0) ≡ true) × (le_bytes k to ≡ true)) es
range_within from to t es e =
    subst (EachKey (λ k. (is_some (lookup k t.0) ≡ true) × (le_bytes k to ≡ true)))
      (ok-injective _ _ e)
      (EachKey-keep (λ k. is_some (lookup k t.0) ≡ true)
        (λ k. (is_some (lookup k t.0) ≡ true) × (le_bytes k to ≡ true))
        (bytes_in_range from (some to)) t.0
        (λ k within present. (present, and_right (le_bytes from k) (le_bytes k to) within))
        (EachKey-present t.0))

unfoldable pub stand_in_range : IsRange order_trees
stand_in_range = record { entries = λ t. t.0; range_lem = range_within }
