-- ===== src/Mxid/Tests.antt =====
-- util/mxid.rs: runs, and the theorems at concrete identifiers. The stand-in for the regex accepts
-- every text that is not empty.
use kerux.Prelude.{String, ◌≡◌, refl, Bool, not}
use kerux.Prelude.Equality.{◌==◌, string_eq}
use kerux.Mxid.{MatrixId, valid, invalid, wrong_number_of_colons, no_leading_at, invalid_char}
use kerux.Mxid.{localpart, domain, validate_all, try_from, new, validate_parts, validate_pieces}
use kerux.Mxid.Text.{split, any_char, starts_with_char, skip_first}
use kerux.Mxid.Roundtrip.{validate_all-new}

names : String → Bool
unfolding string_eq
names d = not (d == "")

runs : Unit {0}
unfolding names new try_from validate_all validate_pieces validate_parts localpart domain split
    any_char starts_with_char skip_first
runs = tt

abbrev alice : MatrixId
alice = record { inner = "@alice:example.org" }

abbrev ported : MatrixId
ported = record { inner = "@alice:example.org:8448" }

alice_made : new names "alice" "example.org" ≡ valid alice
unfolding runs new
alice_made = refl

ported_made : new names "alice" "example.org:8448" ≡ valid ported
unfolding runs
ported_made = refl

rejected :
    (try_from names "alice:example.org" ≡ invalid no_leading_at)
    × (try_from names "@alice" ≡ invalid wrong_number_of_colons)
    × (try_from names "@Alice:example.org" ≡ invalid invalid_char)
unfolding runs
rejected = (refl, refl, refl)

accepted : try_from names "@alice:example.org" ≡ valid alice
unfolding runs
accepted = refl

validate_all-new_example : validate_all names ported.inner ≡ invalid wrong_number_of_colons
unfolding runs
validate_all-new_example = validate_all-new names "alice" "example.org:8448" ported ported_made
