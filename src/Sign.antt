-- ===== src/Sign.antt =====
-- sign.rs: the server's keys and its signatures. The ring crate, base64 and the canonical JSON of
-- serde_canonical are the parameter `Ring`.
use kerux.Prelude.{String, Option, none, some, List, [], ◌∷◌, map}
use kerux.Prelude.Tests.{if◌then◌else◌}
use kerux.Prelude.Equality.{◌==◌, string_eq}
use kerux.Prelude.Maps.{HashMap, insert}
use kerux.Errors.{Outcome, ok, panic, ◌>>=◌}
use kerux.Mxid.Text.{split}
use kerux.State.{expect}

pub record Ring (J : Type 0) : Type 1 where
  pub Pair : Type 0
  pub Signature : Type 0
  pub Bytes : Type 0
  pub from_pkcs8 : Bytes → Option Pair
  pub sign : Pair → String → Signature
  pub encode : Signature → String
  pub canonical : J → Outcome String

-- A file of the directory of keys; its name may be no text, and reading it may fail.
pub record KeyFile (B : Type 0) : Type 0 where
  pub file_name : Option String
  pub contents : Outcome B

-- `s.split_once(':')`, as the part before the colon
abbrev pub kind_of : List String → Option String
kind_of (kind ∷ rest ∷ pieces) = some kind
kind_of _ = none

module _ {J : Type 0} (R : Ring J) where
  pub data Key : Type 0 where
    ed25519 : R.Pair → Key

  unfoldable pub sign : Key → String → R.Signature
  sign (ed25519 key) v = R.sign key v

  abbrev pub read_key : String → R.Bytes → Outcome Key
  read_key kind contents =
      if kind == "ed25519"
      then (do pair ← expect (R.from_pkcs8 contents); ok (ed25519 pair))
      else panic

  -- The loop over the directory.
  unfoldable pub load_files :
      HashMap String Key → List (Outcome (KeyFile R.Bytes)) → Outcome (HashMap String Key)
  load_files ret [] = ok ret
  load_files ret (next ∷ entries) = do
    key_file ← next
    key_name ← expect key_file.file_name
    contents ← key_file.contents
    kind ← expect (kind_of (split b':' key_name))
    key ← read_key kind contents
    load_files (insert key_name key ret) entries

  unfoldable pub load_keys :
      Outcome (List (Outcome (KeyFile R.Bytes))) → Outcome (HashMap String Key)
  unfolding load_files
  load_keys dir = do entries ← dir; load_files [] entries

  abbrev pub signature_of : String → String × Key → String × String
  signature_of json (name, key) = (name, R.encode (sign key json))

  unfoldable pub sign_json : J → HashMap String Key → Outcome (HashMap String String)
  unfolding sign
  sign_json object keys = do json ← R.canonical object; ok (map (signature_of json) keys)
