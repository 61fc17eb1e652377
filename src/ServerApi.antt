-- ===== src/ServerApi.antt =====
-- server_api/mod.rs: how a request to another server is signed. A request is what is read and
-- changed of actix's `ClientRequest`.
pub mod Signed
mod Tests
use kerux.Prelude.{String, Option, none, some, List, [], ◌∷◌, ◌++◌, map}
use Prim.Native.String.{◌++◌ as ◌<>◌}
use kerux.Prelude.Maps.{HashMap}
use kerux.Errors.{Outcome, ok, ◌>>=◌}
use kerux.Events.Content.{Serde}
use kerux.State.{expect}
use kerux.Sign.{Ring, Key, sign_json}

-- `path_and_query` and `host` are parts of the URI.
pub record ClientRequest : Type 0 where
  pub method : String
  pub path_and_query : Option String
  pub host : Option String
  pub headers : List (String × String)

-- The field `content` is put in where there is a body.
abbrev pub with_content : {J : Type 0} → Option J → List (String × J) → List (String × J)
with_content none fields = fields
with_content (some body) fields = fields ++ (("content", body) ∷ [])

-- `format!("origin={},key={key},sig={sig}", ..)`
abbrev pub x_matrix : String → String × String → String × String
x_matrix domain (key, sig) =
    ("X-Matrix", "origin=" <> (domain <> (",key=" <> (key <> (",sig=" <> sig)))))

module _ {J : Type 0} (S : Serde J) (R : Ring J) (domain : String) where
  abbrev pub request_object : String → String → String → Option J → J
  request_object method path host body = S.object (
      with_content body (
        ("method", S.string method)
        ∷ ("uri", S.string path)
        ∷ ("origin", S.string domain)
        ∷ ("destination", S.string host)
        ∷ []))

  unfoldable pub server_request :
      HashMap String (Key R) → ClientRequest → Option J → Outcome ClientRequest
  unfolding sign_json
  server_request keys req body = do
    path ← expect req.path_and_query
    host ← expect req.host
    signatures ← sign_json R (request_object req.method path host body) keys
    ok (record req { headers = req.headers ++ map (x_matrix domain) signatures })
