-- ===== src/ServerApi/Tests.antt =====
-- sign.rs and server_api/mod.rs: the theorem on signed requests with one key, and a run of both.
use Prim.Native.String.{◌++◌ as ◌<>◌}
use kerux.Prelude.{String, ◌≡◌, refl, Bool, true, ◌&&◌, none, some, List, [], ◌∷◌, ◌++◌}
use kerux.Prelude.Equality.{◌==◌, string_eq, ==_refl}
use kerux.Prelude.Maps.{HashMap}
use kerux.Errors.{ok}
use kerux.Sign.{Ring, Key, ed25519, sign, load_files, load_keys, sign_json}
use kerux.ServerApi.{ClientRequest, server_request}
use kerux.ServerApi.Signed.{AreSigned, Describes, server_request-AreSigned}
use kerux.Fixtures.{runs, serde}

-- A signature is the key and the text; a JSON value is a text.
abbrev ring : Ring String
ring = record {
  Pair = String;
  Signature = String × String;
  Bytes = String;
  from_pkcs8 = λ bytes. some bytes;
  sign = λ pair text. (pair, text);
  encode = λ s. s.0 <> s.1;
  canonical = λ json. ok json;
}

abbrev verify : String → String → String × String → Bool
verify pair text s = (s.0 == pair) && (s.1 == text)

sound : (pair text : String) → verify pair text (ring.sign pair text) ≡ true
sound pair text = rw (==_refl pair, ==_refl text) refl

abbrev keys : HashMap String (Key ring)
keys = ("ed25519:a", ed25519 "k") ∷ []

loaded :
    load_keys ring (ok (ok (record { file_name = some "ed25519:a"; contents = ok "k" }) ∷ []))
    ≡ ok keys
unfolding runs load_keys load_files
loaded = refl

abbrev request : ClientRequest
request = record { method = "GET"; path_and_query = some "/v"; host = some "other"; headers = [] }

abbrev signed : ClientRequest
signed = record request { headers = ("X-Matrix", "origin=x,key=ed25519:a,sig=k{..}") ∷ [] }

request_run : server_request serde ring "x" keys request none ≡ ok signed
unfolding server_request sign_json sign
request_run = refl

server_request-AreSigned_example :
    (path host json : String) × (fields headers : List (String × String)) × (request.path_and_query
      ≡ some path)
    × (request.host ≡ some host)
    × Describes ring verify serde "x" path host request none fields
    × (ring.canonical (serde.object fields) ≡ ok json)
    × (signed ≡ record request { headers = request.headers ++ headers })
    × AreSigned ring verify "x" json keys headers
server_request-AreSigned_example =
    server_request-AreSigned ring verify serde "x" keys request signed none sound request_run
