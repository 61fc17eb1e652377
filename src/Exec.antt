-- ===== src/Exec.antt =====
-- Async methods that change shared state and may fail. What was written before an error stays
-- written, so the state comes back beside the outcome.
use kerux.Errors.{ErrorKind, Outcome, ok, err, panic, running}
use kerux.Prelude.{◌≡◌, ◌≢◌, refl, Option, none, some, arith}

abbrev pub Exec {ℓ} : Type ℓ → Type ℓ → Type ℓ
Exec S A = S → Outcome A × S

module _ {ℓ} {S A : Type ℓ} where
  abbrev pub pure : A → Exec S A
  pure a s = (ok a, s)

  abbrev pub raise : ErrorKind → Exec S A
  raise e s = (err e, s)

  -- A computation that only reads.
  abbrev pub reads : (S → Outcome A) → Exec S A
  reads f s = (f s, s)

  -- `expect` and `unwrap`
  abbrev pub expect : Option A → Exec S A
  expect none s = (panic, s)
  expect (some a) s = (ok a, s)

  -- `ok_or(e)?`
  abbrev pub ok_or : Option A → ErrorKind → Exec S A
  ok_or none e s = (err e, s)
  ok_or (some a) e s = (ok a, s)

module _ {ℓ} {S A B : Type ℓ} where
  abbrev pub continue : Outcome A → (A → Exec S B) → Exec S B
  continue running rest s = (running, s)
  continue panic rest s = (panic, s)
  continue (err e) rest s = (err e, s)
  continue (ok a) rest s = rest a s

  infixl 10 ◌>>=◌ ◌>>◌
  abbrev pub ◌>>=◌ : Exec S A → (A → Exec S B) → Exec S B
  ◌>>=◌ first rest s = continue (first s).0 rest (first s).1

  abbrev pub ◌>>◌ : Exec S A → Exec S B → Exec S B
  first >> rest = first >>= λ _. rest

-- What holds of the state and is kept by the rest of a block holds at its end, however it ends.
pub continue_keeps {ℓ κ} :
    {S A B : Type ℓ} (P : S → Type κ) (o : Outcome A) (f : A → Exec S B) (s : S)
    → P s
    → ((a : A) → P (f a s).1)
    → P (continue o f s).1
continue_keeps P (ok a) f s h k = k a
continue_keeps P (err e) f s h k = h
continue_keeps P panic f s h k = h
continue_keeps P running f s h k = h

pub seq_keeps {ℓ κ} :
    {S A B : Type ℓ} (P : S → Type κ) (m : Exec S A) (f : A → Exec S B)
    → ((s : S) → P s → P (m s).1)
    → ((a : A) (s : S) → P s → P (f a s).1)
    → (s : S) → P s
    → P ((m >>= f) s).1
seq_keeps P m f first rest s h =
    continue_keeps P (m s).0 f (m s).1 (first s h) (λ a. rest a (m s).1 (first s h))

-- A block that ends well went through its first statement, and is what comes after it.
pub continue_ok {ℓ} :
    {S A B : Type ℓ} (o : Outcome A) (f : A → Exec S B) (s : S) {b : B}
    → (continue o f s).0 ≡ ok b
    → (a : A) × (o ≡ ok a) × ((f a s).0 ≡ ok b) × (continue o f s ≡ f a s)
continue_ok (ok a) f s h = (a, refl, h, refl)
continue_ok (err e) f s h = cc
continue_ok panic f s h = cc
continue_ok running f s h = cc

-- Every call keeps the property of the state, however it ends.
abbrev pub Keeps {ℓ κ} : {S A : Type ℓ} → (S → Type κ) → Exec S A → Type (ℓ ⊔ κ)
Keeps {S = S} P m = (s : S) → P s → P (m s).1

-- A block does not end well if its first statement does not, or if the rest never does.
pub continue_stopped {ℓ} :
    {S A B : Type ℓ} (o : Outcome A) (f : A → Exec S B) (s : S) (b : B)
    → ((a : A) → o ≢ ok a)
    → (continue o f s).0 ≢ ok b
continue_stopped (ok a) f s b h = absurd (h a refl)
continue_stopped (err e) f s b h = ground arith
continue_stopped panic f s b h = ground arith
continue_stopped running f s b h = ground arith

pub continue_never {ℓ} :
    {S A B : Type ℓ} (o : Outcome A) (f : A → Exec S B) (s : S) (b : B)
    → ((a : A) → (f a s).0 ≢ ok b)
    → (continue o f s).0 ≢ ok b
continue_never (ok a) f s b h = h a
continue_never (err e) f s b h = ground arith
continue_never panic f s b h = ground arith
continue_never running f s b h = ground arith
