-- ===== src/Errors.antt =====
-- error.rs: `ErrorKind` and its HTTP status and error code, and the outcome of fallible code.
-- `Error` wraps an `ErrorKind` with a span trace for the log; the trace is left out. Errors of
-- other crates are carried as their text.
pub mod Codes
pub mod Conversions
use kerux.Prelude.{ℕ, String, ◌≡◌, refl, arith}

-- `AddEventError` of util/storage.rs; `room_missing` is its `RoomNotFound`.
pub data AddEventError : Type 0 where
  user_not_in_room user_banned user_not_invited room_missing insufficient_power_level :
      AddEventError
  invalid_event : String → AddEventError

pub data ErrorKind : Type 0 where
  forbidden unknown_token missing_token : ErrorKind
  bad_json not_json : String → ErrorKind
  not_found user_not_found room_not_found username_taken limit_exceeded : ErrorKind
  missing_param invalid_param : String → ErrorKind
  unsupported_room_version txn_id_exists : ErrorKind
  url_not_utf8 sled_error bincode_error password_error : String → ErrorKind
  unimplemented : ErrorKind
  add_event_error : AddEventError → ErrorKind
  unknown : String → ErrorKind

-- `status_code`
pub status_code : ErrorKind → ℕ
status_code forbidden = 403
status_code unknown_token = 403
status_code missing_token = 403
status_code username_taken = 403
status_code not_found = 404
status_code user_not_found = 404
status_code room_not_found = 404
status_code (bad_json _) = 400
status_code (not_json _) = 400
status_code (missing_param _) = 400
status_code (invalid_param _) = 400
status_code unsupported_room_version = 400
status_code (url_not_utf8 _) = 400
status_code (password_error _) = 400
status_code (unknown _) = 400
status_code txn_id_exists = 400
status_code limit_exceeded = 429
status_code (add_event_error _) = 500
status_code (sled_error _) = 500
status_code (bincode_error _) = 500
status_code unimplemented = 501

-- The `errcode` of `error_response`.
pub errcode : ErrorKind → String
errcode forbidden = "M_FORBIDDEN"
errcode unknown_token = "M_UNKNOWN_TOKEN"
errcode missing_token = "M_MISSING_TOKEN"
errcode (bad_json _) = "M_BAD_JSON"
errcode (not_json _) = "M_NOT_JSON"
errcode not_found = "M_NOT_FOUND"
errcode user_not_found = "M_NOT_FOUND"
errcode room_not_found = "M_NOT_FOUND"
errcode username_taken = "M_USER_IN_USE"
errcode limit_exceeded = "M_LIMIT_EXCEEDED"
errcode (missing_param _) = "M_MISSING_PARAM"
errcode (invalid_param _) = "M_INVALID_PARAM"
errcode unsupported_room_version = "M_UNSUPPORTED_ROOM_VERSION"
errcode txn_id_exists = "M_UNKNOWN"
errcode (url_not_utf8 _) = "M_UNKNOWN"
errcode (password_error _) = "M_UNKNOWN"
errcode unimplemented = "M_UNKNOWN"
errcode (add_event_error _) = "M_UNKNOWN"
errcode (unknown _) = "M_UNKNOWN"
errcode (sled_error _) = "M_UNKNOWN"
errcode (bincode_error _) = "M_UNKNOWN"

-- How a call ends: with a value, with an error, or with a panic (`unwrap`, `expect`, `panic!`).
-- `running` is a loop that has used up the rounds that it was given.
pub data Outcome {ℓ} (A : Type ℓ) : Type ℓ where
  ok : A → Outcome A
  err : ErrorKind → Outcome A
  panic running : Outcome A

infixl 5 ◌>>=◌ ◌>>◌
abbrev pub ◌>>=◌ {ℓ κ} : {A : Type ℓ} {B : Type κ} → Outcome A → (A → Outcome B) → Outcome B
panic >>= rest = panic
running >>= rest = running
err e >>= rest = err e
ok value >>= rest = rest value

abbrev pub ◌>>◌ {ℓ κ} : {A : Type ℓ} {B : Type κ} → Outcome A → Outcome B → Outcome B
first >> rest = first >>= λ _. rest

-- A chain that ends well: its first call did, with some value, and so did the rest on it.
pub >>=-eq-ok {ℓ κ} :
    {A : Type ℓ} {B : Type κ} (first : Outcome A) (rest : A → Outcome B) {end : B}
    → (first >>= rest) ≡ ok end
    → (value : A) × (first ≡ ok value) × (rest value ≡ ok end)
>>=-eq-ok panic rest ended = cc
>>=-eq-ok running rest ended = cc
>>=-eq-ok (err e) rest ended = cc
>>=-eq-ok (ok value) rest ended = (value, refl, ended)

pub ok-injective {ℓ} : {A : Type ℓ} (a b : A) → ok a ≡ ok b → a ≡ b
ok-injective a b h = ground arith
