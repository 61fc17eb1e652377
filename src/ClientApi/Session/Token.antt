-- ===== src/ClientApi/Session/Token.antt =====
-- client_api/auth.rs: the access token of a request, from its header or from its query. `parse` is
-- `Uuid::parse_str` of the uuid crate; a header that is not ASCII text is `none`.
use Prim.Native.Char.{Char, code}
use Prim.Native.Nat.{◌<◌, ◌≤◌}
use Prim.Native.String.{◌++◌ as ◌<>◌}
use text.Mathlib.Text.{starts_with}
use text.Mathlib.TextLemmas.{nil-append, cons-append, append_assoc}
use text.Mathlib.TextPositions.{starts_with-append}
use mathlib.Core.Option.{some-injective}
use kerux.Prelude.{
  ℕ, zero, suc, String, ◌≡◌, refl, sym, ap, subst, true, not, Option, none, some, [], ◌∷◌, inl, inr,
  arith,
}
use kerux.Prelude.Tests.{eqb, if◌then◌else◌, Option-cases}
use kerux.Prelude.Lists.{find}
use kerux.Errors.{Outcome, ok, err, missing_token, unknown_token}
use kerux.Mxid.Text.{any_char, split, Lacks}
use kerux.Storage.Mem.{Uuid}

-- `s.strip_prefix(p)`
unfoldable pub strip_prefix : String → String → Option String
strip_prefix String.[] s = some s
strip_prefix (String.◌∷◌ c p) String.[] = none
strip_prefix (String.◌∷◌ c p) (String.◌∷◌ d s) =
    let rest = strip_prefix p s in if eqb (code c) (code d) then rest else none

unfoldable pub count : String → ℕ
count String.[] = 0
count (String.◌∷◌ c s) = suc (count s)

-- `s.trim_start_matches(p)`: `p` is taken off as often as the text starts with it.
unfoldable pub trim_times : ℕ → String → String → String
trim_times zero p s = s
trim_times (suc times) p s = elim (strip_prefix p s) [
  | none ↦ s
  | some rest ↦ trim_times times p rest
]

unfoldable pub trim_start_matches : String → String → String
unfolding trim_times
trim_start_matches p s = trim_times (count s) p s

module _ (parse : String → Option Uuid) where
  abbrev pub parsed : String → Outcome Uuid
  parsed text = elim (parse text) [ none ↦ err unknown_token | some token ↦ ok token ]

  unfoldable pub from_request : Option (Option String) → Option String → Outcome Uuid
  unfolding trim_start_matches
  from_request (some none) query = err missing_token
  from_request (some (some s)) query =
      if not (starts_with s "Bearer ")
      then err missing_token
      else parsed (trim_start_matches "Bearer " s)
  from_request none none = err missing_token
  from_request none (some query) =
      elim (find (λ pair. starts_with pair "access_token") (split b'&' query)) [
        | none ↦ err missing_token
        | some pair ↦ parsed (trim_start_matches "access_token=" pair)
      ]

strip_prefix-append : (p t : String) → strip_prefix p (p <> t) ≡ some t
unfolding strip_prefix
strip_prefix-append String.[] t = ap some (nil-append t)
strip_prefix-append (String.◌∷◌ c p) t =
    let same : eqb (code c) (code c) ≡ true = ground arith in
    rw (cons-append c p t, same) (strip_prefix-append p t)

trimmed : (times : ℕ) (p t : String) → strip_prefix p t ≡ none → trim_times times p t ≡ t
unfolding trim_times
trimmed zero p t h = refl
trimmed (suc times) p t h = rw (trim_times, h) refl

trim_prefix :
    (c : Char) (p t : String)
    → strip_prefix (String.◌∷◌ c p) t ≡ none
    → trim_start_matches (String.◌∷◌ c p) (String.◌∷◌ c p <> t) ≡ t
unfolding trim_start_matches count
trim_prefix c p t h =
    let whole : strip_prefix (String.◌∷◌ c p) (String.◌∷◌ c (p <> t)) ≡ some t =
      subst (λ x. strip_prefix (String.◌∷◌ c p) x ≡ some t) (cons-append c p t)
        (strip_prefix-append (String.◌∷◌ c p) t) in
    rw (cons-append c p t, trim_times, whole) (trimmed (count (p <> t)) (String.◌∷◌ c p) t h)

count-strip_prefix : (p s r : String) → strip_prefix p s ≡ some r → count r ≤ count s
unfolding strip_prefix count
count-strip_prefix String.[] s r e = let same = some-injective s r e in omega (arith, ap count same)
count-strip_prefix (String.◌∷◌ c p) String.[] r e = cc
count-strip_prefix (String.◌∷◌ c p) (String.◌∷◌ d s) r e =
    let shorter = count-strip_prefix p s r in ground arith

count-strip_first :
    (c : Char) (p s r : String) → strip_prefix (String.◌∷◌ c p) s ≡ some r → count r < count s
unfolding strip_prefix count
count-strip_first c p String.[] r e = cc
count-strip_first c p (String.◌∷◌ d s) r e = let shorter = count-strip_prefix p s r in ground arith

trimmed_ends :
    (times : ℕ) (c : Char) (p s : String)
    → count s ≤ times
    → strip_prefix (String.◌∷◌ c p) (trim_times times (String.◌∷◌ c p) s) ≡ none
unfolding trim_times
trimmed_ends zero c p s h = elim (Option-cases (strip_prefix (String.◌∷◌ c p) s)) [
  | inl at_end ↦ at_end
  | inr (r, e) ↦ let shorter = count-strip_first c p s r e in absurd (omega arith)
]
trimmed_ends (suc times) c p s h = elim (Option-cases (strip_prefix (String.◌∷◌ c p) s)) [
  | inl at_end ↦ rw (trim_times, at_end) at_end
  | inr (r, e) ↦
      let shorter = count-strip_first c p s r e in
      rw (trim_times, e) (trimmed_ends times c p r (omega arith))
]

-- The text is trimmed to its end: what is left does not start with the word that is taken off.
pub strip_prefix-trim_start_matches :
    (c : Char) (p s : String)
    → strip_prefix (String.◌∷◌ c p) (trim_start_matches (String.◌∷◌ c p) s) ≡ none
unfolding trim_start_matches
strip_prefix-trim_start_matches c p s = trimmed_ends (count s) c p s (omega arith)

Lacks-append : (k : ℕ) (a b : String) → Lacks k a → Lacks k b → Lacks k (a <> b)
unfolding any_char
Lacks-append k String.[] b ha hb = rw (nil-append b) hb
Lacks-append k (String.◌∷◌ c a) b ha hb =
    rw (cons-append c a b) (ground (arith, Lacks-append k a b))

split_one : (k : ℕ) (s : String) → Lacks k s → split k s ≡ s ∷ []
unfolding split any_char
split_one k String.[] h = refl
split_one k (String.◌∷◌ c s) h = ground (arith, split_one k s)

starts : (t : String) → starts_with ("access_token=" <> t) "access_token" ≡ true
starts t =
    subst (λ x. starts_with x "access_token" ≡ true) (sym (append_assoc "access_token" "=" t))
      (starts_with-append "access_token" ("=" <> t))

-- A client reads back the token that it sends: behind "Bearer " in the header, whatever the query
-- is, or without a header as the only field of the query. The text of a token does not start with
-- either of the two words, and has no ampersand.
pub from_request-sent :
    (parse : String → Option Uuid) (t : String) (query : Option String)
    → strip_prefix "Bearer " t ≡ none
    → strip_prefix "access_token=" t ≡ none
    → Lacks b'&' t
    → (from_request parse (some (some ("Bearer " <> t))) query ≡ parsed parse t)
      × (from_request parse none (some ("access_token=" <> t)) ≡ parsed parse t)
unfolding from_request any_char
from_request-sent parse t query hb ha hl =
    let field = Lacks-append b'&' "access_token=" t refl hl in
    (
      rw (starts_with-append "Bearer " t, trim_prefix "B" "earer " t hb) refl,
      rw
          (
            from_request,
            split_one b'&' ("access_token=" <> t) field,
            starts t,
            trim_prefix "a" "ccess_token=" t ha,
          )
          refl,
    )
