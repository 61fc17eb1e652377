-- ===== src/Storage/Sled/Rooms/Keys.antt =====
-- storage/sled.rs: the keys of a room's order. Events are under four bytes, and queries ask for
-- ranges of eight; sled compares keys byte by byte.
use Prim.Native.Nat.{◌/◌, ◌%◌, ◌<◌}
use kerux.Prelude.{ℕ, ◌^◌, ◌≡◌, refl, subst, Bool, true, false, ◌&&◌, ◌||◌, List, [], ◌∷◌, arith}
use kerux.Prelude.Tests.{ltb, eqb}
use kerux.Storage.Sled.Rooms.{to_be_bytes}

-- The order of sled's keys.
unfoldable pub le_bytes : List ℕ → List ℕ → Bool
le_bytes [] bs = true
le_bytes (a ∷ s) [] = false
le_bytes (a ∷ s) (b ∷ t) = ltb a b || (eqb a b && le_bytes s t)

le_zero : (a : ℕ) (s t : List ℕ) → le_bytes (a ∷ s) (0 ∷ t) ≡ true → (a ≡ 0) × (le_bytes s t ≡ true)
unfolding le_bytes
le_zero a s t h = ground arith

le_four :
    (a b c d : ℕ) (t : List ℕ)
    → le_bytes (a ∷ b ∷ c ∷ d ∷ []) (0 ∷ 0 ∷ 0 ∷ 0 ∷ t) ≡ true
    → ((a ≡ 0) × (b ≡ 0)) × ((c ≡ 0) × (d ≡ 0))
le_four a b c d t h =
    let (za, h1) = le_zero a (b ∷ c ∷ d ∷ []) (0 ∷ 0 ∷ 0 ∷ t) h in
    let (zb, h2) = le_zero b (c ∷ d ∷ []) (0 ∷ 0 ∷ t) h1 in
    let (zc, h3) = le_zero c (d ∷ []) (0 ∷ t) h2 in
    let (zd, h4) = le_zero d [] t h3 in ((za, zb), (zc, zd))

high_bytes : (to : ℕ) → to < 2 ^ 32 → to_be_bytes 8 to ≡ 0 ∷ 0 ∷ 0 ∷ 0 ∷ to_be_bytes 4 to
unfolding to_be_bytes
high_bytes to h =
    let e7 : to / 256 ^ 7 % 256 ≡ 0 = omega arith in
    let e6 : to / 256 ^ 6 % 256 ≡ 0 = omega arith in
    let e5 : to / 256 ^ 5 % 256 ≡ 0 = omega arith in
    let e4 : to / 256 ^ 4 % 256 ≡ 0 = omega arith in rw (e7, e6, e5, e4) refl

-- A key of four bytes is behind every bound of eight but for the key of the index 0.
pub le_bytes-bound :
    (index to : ℕ)
    → index < 2 ^ 32
    → to < 2 ^ 32
    → le_bytes (to_be_bytes 4 index) (to_be_bytes 8 to) ≡ true
    → index ≡ 0
unfolding to_be_bytes
le_bytes-bound index to hi ht h =
    let zeros =
      le_four (index / 256 ^ 3 % 256) (index / 256 ^ 2 % 256) (index / 256 ^ 1 % 256)
        (index / 256 ^ 0 % 256) (to_be_bytes 4 to)
        (subst (λ key. le_bytes (to_be_bytes 4 index) key ≡ true) (high_bytes to ht) h) in
    omega (arith, zeros)
