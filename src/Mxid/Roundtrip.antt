-- ===== src/Mxid/Roundtrip.antt =====
-- util/mxid.rs: what a new identifier gives back, and which identifiers are accepted again.
use Prim.Native.Char.{Char, code}
use Prim.Native.String.{◌++◌ as ◌<>◌}
use text.Mathlib.TextEquality.{Char-path}
use text.Mathlib.TextLemmas.{nil-append, cons-append}
use kerux.Prelude.{String, ◌≡◌, refl, sym, ap, ◌∙◌, Bool, true, false, not, some}
use kerux.Prelude.{List, [], ◌∷◌, arith, inl, inr}
use kerux.Prelude.Tests.{eqb, Bool-cases, if◌then◌else◌}
use kerux.Mxid.{MatrixId, valid, invalid, wrong_number_of_colons, is_localpart_char}
use kerux.Mxid.{localpart, domain, validate_parts, validate_pieces, validate_all, try_from, new}
use kerux.Mxid.Text.{any_char, split, starts_with_char, skip_first, trim_start, first}
use kerux.Mxid.Text.{onto_first, Lacks}

abbrev at_sign : Char
at_sign = "@"

abbrev colon : Char
colon = ":"

colon-append : (s : String) → ":" <> s ≡ String.◌∷◌ colon s
colon-append s = cons-append colon "" s ∙ ap (String.◌∷◌ colon) (nil-append s)

at-append : (s : String) → "@" <> s ≡ String.◌∷◌ at_sign s
at-append s = cons-append at_sign "" s ∙ ap (String.◌∷◌ at_sign) (nil-append s)

-- A text with no colon is the first piece of whatever follows it after a colon.
split-append :
    (a s : String) → Lacks b':' a → split b':' (a <> String.◌∷◌ colon s) ≡ a ∷ split b':' s
unfolding split any_char
split-append String.[] s h = rw nil-append
split-append (String.◌∷◌ c a) s h = rw cons-append (ground (arith, split-append a s))

split_whole : (s : String) → Lacks b':' s → split b':' s ≡ s ∷ []
unfolding split any_char
split_whole String.[] h = refl
split_whole (String.◌∷◌ c s) h = ground (arith, split_whole s)

split_shape : (s : String) → (p : String) × (ps : List String) × (split b':' s ≡ p ∷ ps)
unfolding split
split_shape String.[] = ("", [], refl)
split_shape (String.◌∷◌ c s) = elim (Bool-cases (eqb (code c) b':')) [
  | inl sep ↦ ("", split b':' s, rw sep)
  | inr other ↦ let (p, ps, e) = split_shape s in (String.◌∷◌ c p, ps, rw (other, e))
]

split_one : (s a : String) → split b':' s ≡ a ∷ [] → s ≡ a
unfolding split
split_one String.[] a h = cc
split_one (String.◌∷◌ c s) a h = let (p, ps, e) = split_shape s in ground (arith, e, split_one s p)

-- A text that was split into two pieces is those pieces, joined by a colon.
split_join_onto :
    (c : Char) (s a b : String) (p : String) (ps : List String)
    → split b':' s ≡ p ∷ ps
    → onto_first c (p ∷ ps) ≡ a ∷ b ∷ []
    → ((q : String) → split b':' s ≡ q ∷ b ∷ [] → s ≡ q <> String.◌∷◌ colon b)
    → String.◌∷◌ c s ≡ a <> String.◌∷◌ colon b
split_join_onto c s a b p ps e h ih =
    let rest : s ≡ p <> String.◌∷◌ colon b = ih p (cc) in
    let head : a ≡ String.◌∷◌ c p = cc in
    rw (head, rest) (sym (cons-append c p (String.◌∷◌ colon b)))

split_join : (s a b : String) → split b':' s ≡ a ∷ b ∷ [] → s ≡ a <> String.◌∷◌ colon b
unfolding split
split_join String.[] a b h = cc
split_join (String.◌∷◌ c s) a b h = elim (Bool-cases (eqb (code c) b':')) [
  | inl sep ↦
      let tail : split b':' s ≡ b ∷ [] = ground arith in
      let start : a ≡ "" = ground arith in
      rw (start, nil-append, split_one s b tail)
        (ap (λ x. String.◌∷◌ x b) (Char-path c colon (ground arith)))
  | inr other ↦
      let (p, ps, e) = split_shape s in
      split_join_onto c s a b p ps e (ground arith) (λ q. split_join s q b)
]

split_more :
    (s : String)
    → any_char (λ c. eqb (code c) b':') s ≡ true
    → (p : String) × (q : String) × (ps : List String) × (split b':' s ≡ p ∷ q ∷ ps)
unfolding split any_char
split_more String.[] h = cc
split_more (String.◌∷◌ c s) h = elim (Bool-cases (eqb (code c) b':')) [
  | inl sep ↦ let (p, ps, e) = split_shape s in ("", p, ps, rw (sep, e))
  | inr other ↦
      let (p, q, ps, e) = split_more s (ground arith) in (String.◌∷◌ c p, q, ps, rw (other, e))
]

local_chars : (l : String) → any_char (λ c. not (is_localpart_char c)) l ≡ false → Lacks b':' l
unfolding any_char
local_chars String.[] h = refl
local_chars (String.◌∷◌ c l) h = ground (arith, local_chars l)

trim_local :
    (l s : String)
    → any_char (λ c. not (is_localpart_char c)) l ≡ false
    → trim_start b'@' (l <> String.◌∷◌ colon s) ≡ l <> String.◌∷◌ colon s
unfolding any_char trim_start
trim_local String.[] s h = rw nil-append
trim_local (String.◌∷◌ c l) s h = rw cons-append (ground arith)

module _ (is_server_name : String → Bool) where
  -- What a successful `new` has tested and built.
  new_inv :
      (l d : String) (m : MatrixId)
      → new is_server_name l d ≡ valid m
      → (any_char (λ c. not (is_localpart_char c)) l ≡ false)
        × (m.inner ≡ "@" <> (l <> (":" <> d)))
        × (validate_parts is_server_name l d ≡ valid tt)
  unfolding new validate_parts
  new_inv l d m h = ground arith

  inner_shape :
      (l d : String) (m : MatrixId)
      → new is_server_name l d ≡ valid m
      → m.inner ≡ String.◌∷◌ at_sign (l <> String.◌∷◌ colon d)
  inner_shape l d m h =
      (new_inv l d m h).1 ∙ at-append _ ∙ ap (λ t. String.◌∷◌ at_sign (l <> t)) (colon-append d)

  split-inner :
      (l d : String) (m : MatrixId)
      → new is_server_name l d ≡ valid m
      → split b':' (trim_start b'@' m.inner) ≡ l ∷ split b':' d
  unfolding trim_start
  split-inner l d m h =
      let chars = (new_inv l d m h).0 in
      rw (inner_shape l d m h, trim_local l d chars) (split-append l d (local_chars l chars))

  -- The localpart of a new identifier is the localpart that it was made of.
  pub localpart-new :
      (l d : String) (m : MatrixId) → new is_server_name l d ≡ valid m → localpart m ≡ l
  unfolding localpart
  localpart-new l d m h = ap first (split-inner l d m h)

  -- The domain of a new identifier is the given domain up to its first colon.
  domain-new :
      (l d : String) (m : MatrixId)
      → new is_server_name l d ≡ valid m
      → domain m ≡ some (first (split b':' d))
  unfolding domain split
  domain-new l d m h =
      let chars = (new_inv l d m h).0 in
      let (p, ps, e) = split_shape d in
      rw (inner_shape l d m h, split-append l d (local_chars l chars), e)

  -- A new identifier is accepted again exactly if its domain holds no colon: an identifier with a
  -- port in its domain is built by `new` and refused by `validate_all`.
  pub validate_all-new :
      (l d : String) (m : MatrixId)
      → new is_server_name l d ≡ valid m
      → validate_all is_server_name m.inner
        ≡ (if any_char (λ c. eqb (code c) b':') d then invalid wrong_number_of_colons else valid tt)
  unfolding validate_all validate_pieces starts_with_char skip_first
  validate_all-new l d m h =
      let chars = (new_inv l d m h).0 in
      let parts = (new_inv l d m h).2 in
      rw (inner_shape l d m h, split-append l d (local_chars l chars))
        (elim (Bool-cases (any_char (λ c. eqb (code c) b':') d)) [
          | inl has ↦ let (p, q, ps, e) = split_more d has in rw (has, e)
          | inr lacks ↦ rw (lacks, split_whole d lacks) parts
        ])

  pieces_inv :
      (ps : List String)
      → validate_pieces is_server_name ps ≡ valid tt
      → (l : String) × (d : String) × (ps ≡ l ∷ d ∷ [])
        × (validate_parts is_server_name l d ≡ valid tt)
  unfolding validate_pieces
  pieces_inv (l ∷ d ∷ []) h = (l, d, refl, h)
  pieces_inv [] h = cc
  pieces_inv (l ∷ []) h = cc
  pieces_inv (l ∷ d ∷ e ∷ ps) h = cc

  -- What `validate_all` accepts is the '@', a localpart, a colon and a domain that has none.
  validate_all_inv :
      (s : String)
      → validate_all is_server_name s ≡ valid tt
      → (l : String) × (d : String) × (s ≡ String.◌∷◌ at_sign (l <> String.◌∷◌ colon d))
        × (validate_parts is_server_name l d ≡ valid tt)
        × (split b':' (skip_first s) ≡ l ∷ d ∷ [])
  unfolding validate_all validate_pieces starts_with_char skip_first
  validate_all_inv String.[] h = cc
  validate_all_inv (String.◌∷◌ c s) h = elim (Bool-cases (eqb (code c) b'@')) [
    | inl at ↦
        let (l, d, e, parts) = pieces_inv (split b':' s) (rw at at h) in
        (
          l,
          d,
          rw (split_join s l d e) (
              ap (λ x. String.◌∷◌ x (l <> String.◌∷◌ colon d))
                (Char-path c at_sign (ground arith))),
          parts,
          e,
        )
    | inr other ↦ absurd (ground arith)
  ]

  new_of_parts :
      (l d : String) (m : MatrixId)
      → validate_parts is_server_name l d ≡ valid tt
      → m.inner ≡ String.◌∷◌ at_sign (l <> String.◌∷◌ colon d)
      → new is_server_name l d ≡ valid m
  unfolding new
  new_of_parts l d m parts e =
      rw (parts, colon-append, at-append)
        (ap (λ (t : String). let made : MatrixId = record { inner = t } in valid made) (sym e))

  split_domain :
      (s l d : String) (m : MatrixId)
      → new is_server_name l d ≡ valid m
      → s ≡ String.◌∷◌ at_sign (l <> String.◌∷◌ colon d)
      → split b':' (skip_first s) ≡ l ∷ d ∷ []
      → split b':' d ≡ d ∷ []
  unfolding skip_first
  split_domain s l d m made shape e =
      let pieces : split b':' (l <> String.◌∷◌ colon d) ≡ l ∷ d ∷ [] = rw shape at e in
      let whole = split-append l d (local_chars l (new_inv l d m made).0) in cc

  -- Every accepted text is what `new` builds of its localpart and its domain.
  try_from-new :
      (s : String) (m : MatrixId)
      → try_from is_server_name s ≡ valid m
      → (d : String) × (domain m ≡ some d) × (new is_server_name (localpart m) d ≡ valid m)
  unfolding try_from
  try_from-new s m h =
      let accepted : validate_all is_server_name s ≡ valid tt = ground arith in
      let same : m.inner ≡ s = ground arith in
      let (l, d, shape, parts, e) = validate_all_inv s accepted in
      let made = new_of_parts l d m parts (same ∙ shape) in
      (
        d,
        domain-new l d m made ∙ ap (λ ps. some (first ps)) (split_domain s l d m made shape e),
        rw (localpart-new l d m made) made,
      )
