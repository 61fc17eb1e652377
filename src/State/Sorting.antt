-- ===== src/State/Sorting.antt =====
-- `sort_by` of the standard library, a stable sort, with a comparison that may panic.
use kerux.Prelude.{List, [], ◌∷◌, Ordering}
use kerux.Errors.{Outcome, ok, ◌>>=◌}

module _ {ℓ} {A : Type ℓ} (compare_by : A → A → Outcome Ordering) where
  -- Before the first entry that is not smaller.
  unfoldable pub insert_sorted : A → List A → Outcome (List A)
  insert_sorted x [] = ok (x ∷ [])
  insert_sorted x (y ∷ ys) = do
    order ← compare_by x y
    (elim order [ Ordering.gt ↦ do rest ← insert_sorted x ys; ok (y ∷ rest) | _ ↦ ok (x ∷ y ∷ ys) ])

  unfoldable pub sort_by : List A → Outcome (List A)
  unfolding insert_sorted
  sort_by [] = ok []
  sort_by (x ∷ xs) = do rest ← sort_by xs; insert_sorted x rest
