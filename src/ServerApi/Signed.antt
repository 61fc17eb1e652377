-- ===== src/ServerApi/Signed.antt =====
-- server_api/mod.rs and sign.rs: another server can verify the signatures of a request.
use kerux.Prelude.{
  String, ◌≡◌, refl, sym, ap, subst, Bool, true, Option, none, some, List, [], ◌∷◌, ◌++◌, ◌∙◌, map,
}
use Prim.Native.String.{◌++◌ as ◌<>◌}
use kerux.Prelude.Equality.{string_eq}
use kerux.Prelude.Maps.{HashMap, lookup}
use kerux.Errors.{ok, >>=-eq-ok, ok-injective}
use kerux.Events.Content.{Serde}
use kerux.State.{expect}
use kerux.Sign.{Ring, Key, ed25519, sign, signature_of, sign_json}
use kerux.ServerApi.{ClientRequest, request_object, x_matrix, server_request}

expect-ok : {A : Type 0} (o : Option A) (a : A) → expect o ≡ ok a → o ≡ some a
expect-ok none a e = cc
expect-ok (some b) a e = ap some (ok-injective b a e)

module _ {J : Type 0} (R : Ring J) (verify : R.Pair → String → R.Signature → Bool) where
  -- The text is the encoding of a signature that verifies by the key.
  abbrev pub Verifies : Key R → String → String → Type 0
  Verifies (ed25519 pair) json text =
      (signature : R.Signature) × (text ≡ R.encode signature) × (verify pair json signature ≡ true)

  -- The headers are one for each key: the server, the key's name, and a signature by the key.
  pub AreSigned : String → String → HashMap String (Key R) → List (String × String) → Type 0
  AreSigned domain json [] [] = Unit {0}
  AreSigned domain json ((name, key) ∷ keys) ((field, value) ∷ headers) =
      (field ≡ "X-Matrix")
      × ((text : String) × (value
            ≡ "origin=" <> (domain <> (",key=" <> (name <> (",sig=" <> text)))))
          × Verifies key json text)
      × AreSigned domain json keys headers
  AreSigned domain json _ _ = ⊥

  map-AreSigned :
      (domain json : String) (keys : HashMap String (Key R))
      → ((pair : R.Pair) (text : String) → verify pair text (R.sign pair text) ≡ true)
      → AreSigned domain json keys (map (x_matrix domain) (map (signature_of R json) keys))
  unfolding AreSigned sign
  map-AreSigned domain json [] sound = tt
  map-AreSigned domain json ((name, ed25519 pair) ∷ keys) sound = (
    refl,
    (R.encode (R.sign pair json), refl, (R.sign pair json, refl, sound pair json)),
    map-AreSigned domain json keys sound,
  )

  -- What the signed object says: the request's method, path with query, origin, destination and,
  -- where there is one, body.
  pub record Describes (S : Serde J) (domain path host : String) (req : ClientRequest)
      (body : Option J) (fields : List (String × J)) : Type 0 where
    pub method : lookup "method" fields ≡ some (S.string req.method)
    pub uri : lookup "uri" fields ≡ some (S.string path)
    pub origin : lookup "origin" fields ≡ some (S.string domain)
    pub destination : lookup "destination" fields ≡ some (S.string host)
    pub content : lookup "content" fields ≡ body

  fields_describe :
      (S : Serde J) (domain path host : String) (req : ClientRequest) (body : Option J)
      → (fields : List (String × J)) × (request_object S R domain req.method path host body
          ≡ S.object fields)
        × Describes S domain path host req body fields
  unfolding lookup string_eq
  fields_describe S domain path host req none = (
    _,
    refl,
    record { method = refl; uri = refl; origin = refl; destination = refl; content = refl },
  )
  fields_describe S domain path host req (some body) = (
    _,
    refl,
    record { method = refl; uri = refl; origin = refl; destination = refl; content = refl },
  )

  -- If every signature verifies by the key that made it, a request that is signed has changed in
  -- its headers alone: for each key of the server it has one more, with the server's domain, the
  -- name of the key and a signature that verifies by it. What is signed is the canonical JSON of an
  -- object with the request's method, its path and query, the two servers and the body, if any.
  pub server_request-AreSigned :
      (S : Serde J) (domain : String) (keys : HashMap String (Key R)) (req signed : ClientRequest)
      (body : Option J)
      → ((pair : R.Pair) (text : String) → verify pair text (R.sign pair text) ≡ true)
      → server_request S R domain keys req body ≡ ok signed
      → (path host json : String) × (fields : List (String × J)) × (headers : List
          (String × String))
        × (req.path_and_query ≡ some path)
        × (req.host ≡ some host)
        × Describes S domain path host req body fields
        × (R.canonical (S.object fields) ≡ ok json)
        × (signed ≡ record req { headers = req.headers ++ headers })
        × AreSigned domain json keys headers
  unfolding server_request sign_json
  server_request-AreSigned S domain keys req signed body sound e =
      let (path, e1, r1) = >>=-eq-ok (expect req.path_and_query) _ e in
      let (host, e2, r2) = >>=-eq-ok (expect req.host) _ r1 in
      let object = request_object S R domain req.method path host body in
      let (signatures, e3, r3) = >>=-eq-ok (sign_json R object keys) _ r2 in
      let (json, e4, r4) = >>=-eq-ok (R.canonical object) _ e3 in
      let (fields, is, described) = fields_describe S domain path host req body in
      (
        path,
        host,
        json,
        fields,
        map (x_matrix domain) signatures,
        expect-ok req.path_and_query path e1,
        expect-ok req.host host e2,
        described,
        ap R.canonical (sym is) ∙ e4,
        sym (ok-injective _ _ r3),
        subst (λ xs. AreSigned domain json keys (map (x_matrix domain) xs)) (ok-injective _ _ r4)
            (map-AreSigned domain json keys sound),
      )
