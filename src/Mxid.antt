-- ===== src/Mxid.antt =====
-- util/mxid.rs: Matrix user identifiers. The server name regex (util/mxid_server_name.regex) is
-- run by the regex crate: whether it matches is the parameter `is_server_name`.
pub mod Text
pub mod Roundtrip
mod Tests
use Prim.Native.Char.{Char, code}
use Prim.Native.String.{◌++◌ as ◌<>◌, len}
use kerux.Prelude.{ℕ, ◌+◌, String, ◌≡◌, ap, Bool, true, false, ◌||◌, ◌&&◌, not, Option, none, some}
use kerux.Prelude.{List, [], ◌∷◌, dite}
use kerux.Prelude.Tests.{ltb, leb, eqb, if◌then◌else◌}
use kerux.Prelude.Equality.{Eq, string_eq}
use Text.{any_char, split, starts_with_char, skip_first, trim_start, first, second}

pub record MatrixId : Type 0 where
  pub inner : String

mxid_dec : Discrete MatrixId
mxid_dec a b =
    dite (string_eq.dec a.inner b.inner) (λ p. yes (λ i. record { inner = p i }))
      (λ n. no (λ p. n (ap (λ (m : MatrixId). m.inner) p)))

instance unfoldable pub mxid_eq : Eq MatrixId
unfolding mxid_dec string_eq
mxid_eq = record { dec = mxid_dec }

pub data MxidError : Type 0 where
  too_long invalid_char no_leading_at wrong_number_of_colons invalid_domain : MxidError

pub data Checked {ℓ} (A : Type ℓ) : Type ℓ where
  valid : A → Checked A
  invalid : MxidError → Checked A

infixl 5 ◌>>=◌ ◌>>◌
abbrev ◌>>=◌ {ℓ κ} : {A : Type ℓ} {B : Type κ} → Checked A → (A → Checked B) → Checked B
valid a >>= f = f a
invalid e >>= f = invalid e

abbrev ◌>>◌ {ℓ κ} : {A : Type ℓ} {B : Type κ} → Checked A → Checked B → Checked B
m >> k = m >>= λ _. k

-- The closure in `validate_parts`, negated: a character that a localpart may hold.
abbrev pub is_localpart_char : Char → Bool
is_localpart_char c =
    leb b'a' (code c) && leb (code c) b'z'
    || leb b'0' (code c) && leb (code c) b'9'
    || eqb (code c) b'-'
    || eqb (code c) b'_'
    || eqb (code c) b'.'
    || eqb (code c) b'='
    || eqb (code c) b'/'

-- `Self::localpart`: the text up to the first colon, without the leading '@'s.
unfoldable pub localpart : MatrixId → String
localpart m = first (split b':' (trim_start b'@' m.inner))

-- `Self::domain`: `nth(1).unwrap()` panics, here `none`, on a text with no colon.
unfoldable pub domain : MatrixId → Option String
domain m = second (split b':' m.inner)

module _ (is_server_name : String → Bool) where
  unfoldable pub validate_parts : String → String → Checked (Unit {0})
  validate_parts local dom =
      if any_char (λ c. not (is_localpart_char c)) local
      then invalid invalid_char
      else if not (is_server_name dom)
      then invalid invalid_domain
      else if ltb 255 (len local + len dom + 2)
      then invalid too_long
      else valid tt

  -- The parts of the text after the '@', split at its colons.
  unfoldable pub validate_pieces : List String → Checked (Unit {0})
  validate_pieces (local ∷ dom ∷ []) = validate_parts local dom
  validate_pieces _ = invalid wrong_number_of_colons

  unfoldable pub validate_all : String → Checked (Unit {0})
  validate_all mxid =
      if starts_with_char b'@' mxid
      then validate_pieces (split b':' (skip_first mxid))
      else invalid no_leading_at

  -- `TryFrom<String>` and `TryFrom<&str>`
  unfoldable pub try_from : String → Checked MatrixId
  try_from value = do validate_all value; valid (record { inner = value })

  unfoldable pub new : String → String → Checked MatrixId
  new local dom = do
    validate_parts local dom
    valid (record { inner = "@" <> (local <> (":" <> dom)) })
