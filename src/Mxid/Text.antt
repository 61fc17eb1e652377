-- ===== src/Mxid/Text.antt =====
-- The string operations of the standard library that util/mxid.rs uses, over native strings.
use Prim.Native.Char.{Char, code}
use kerux.Prelude.{ℕ, String, ◌≡◌, Bool, false, ◌||◌, Option, none, some}
use kerux.Prelude.{List, [], ◌∷◌}
use kerux.Prelude.Tests.{eqb, if◌then◌else◌}

-- `s.contains(p)`
unfoldable pub any_char : (Char → Bool) → String → Bool
any_char p String.[] = false
any_char p (String.◌∷◌ c s) = p c || any_char p s

-- `s.starts_with(c)`, of a character given by its code
unfoldable pub starts_with_char : ℕ → String → Bool
starts_with_char k String.[] = false
starts_with_char k (String.◌∷◌ c s) = eqb (code c) k

-- `&s[1..]` of a text that starts with an ASCII character
unfoldable pub skip_first : String → String
skip_first String.[] = ""
skip_first (String.◌∷◌ c s) = s

-- `s.trim_start_matches(c)`
unfoldable pub trim_start : ℕ → String → String
trim_start k String.[] = ""
trim_start k (String.◌∷◌ c s) =
    let rest = trim_start k s in if eqb (code c) k then rest else String.◌∷◌ c s

-- Puts a character in front of the first piece.
abbrev pub onto_first : Char → List String → List String
onto_first c [] = String.◌∷◌ c "" ∷ []
onto_first c (p ∷ ps) = String.◌∷◌ c p ∷ ps

-- `s.split(c)`, which always has a first piece
unfoldable pub split : ℕ → String → List String
split k String.[] = "" ∷ []
split k (String.◌∷◌ c s) =
    let pieces = split k s in if eqb (code c) k then "" ∷ pieces else onto_first c pieces

-- `.next().unwrap()` of a split
abbrev pub first : List String → String
first [] = ""
first (p ∷ ps) = p

-- `.nth(1)`
abbrev pub second : List String → Option String
second [] = none
second (p ∷ []) = none
second (p ∷ q ∷ ps) = some q

-- No character of the text has the code.
abbrev pub Lacks : ℕ → String → Type 0
Lacks k s = any_char (λ c. eqb (code c) k) s ≡ false

-- `s.split_once(c)`, as the part behind the first `c`
unfoldable pub after_first : ℕ → String → Option String
after_first k String.[] = none
after_first k (String.◌∷◌ c s) =
    let rest = after_first k s in if eqb (code c) k then some s else rest
