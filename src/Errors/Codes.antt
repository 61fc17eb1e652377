-- ===== src/Errors/Codes.antt =====
-- error.rs: how the HTTP status and the Matrix error code of an error belong together.
use kerux.Prelude.{◌≤◌, ◌≡◌, refl, arith}
use kerux.Prelude.Tests.{eqb}
use kerux.Prelude.Equality.{◌==◌, string_eq}
use kerux.Errors.{ErrorKind, forbidden, status_code, errcode}

in_range : (e : ErrorKind) → (400 ≤ status_code e) × (status_code e ≤ 501)
unfolding status_code
in_range e = ground arith

missing_code : (e : ErrorKind) → eqb (status_code e) 404 ≡ (errcode e == "M_NOT_FOUND")
unfolding status_code errcode string_eq
missing_code forbidden = refl
missing_code _ = refl

limit_code : (e : ErrorKind) → eqb (status_code e) 429 ≡ (errcode e == "M_LIMIT_EXCEEDED")
unfolding status_code errcode string_eq
limit_code forbidden = refl
limit_code _ = refl

-- Every error has a status of a client's or a server's error. The status is 404 exactly for the
-- code of what is not found, and 429 exactly for the code of an exceeded limit.
pub status_code-errcode :
    (e : ErrorKind)
    → (400 ≤ status_code e)
      × (status_code e ≤ 501)
      × (eqb (status_code e) 404 ≡ (errcode e == "M_NOT_FOUND"))
      × (eqb (status_code e) 429 ≡ (errcode e == "M_LIMIT_EXCEEDED"))
status_code-errcode e = let (low, high) = in_range e in (low, high, missing_code e, limit_code e)
