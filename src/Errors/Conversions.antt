-- ===== src/Errors/Conversions.antt =====
-- error.rs: the errors of other crates as errors of the server. Each comes as its text; what the
-- conversion looks at is a constructor.
use kerux.Prelude.{String}
use kerux.Errors.{ErrorKind, AddEventError, not_json, bad_json, unknown, password_error}
use kerux.Errors.{add_event_error, sled_error, bincode_error}

-- `serde_json::error::Category`
pub data Category : Type 0 where
  io syntax data_category eof : Category

pub record JsonError : Type 0 where
  pub classify : Category
  pub text : String

-- actix's `JsonPayloadError`, whose other variants only have a text here
pub data JsonPayloadError : Type 0 where
  deserialize : JsonError → JsonPayloadError
  other : String → JsonPayloadError

-- Both for `Utf8Error` and for `FromUtf8Error`.
pub from_utf8_error : String → ErrorKind
from_utf8_error text = not_json text

unfoldable pub from_json_error : JsonError → ErrorKind
from_json_error e = elim e.classify [ data_category ↦ bad_json e.text | _ ↦ not_json e.text ]

unfoldable pub from_json_payload_error : JsonPayloadError → ErrorKind
unfolding from_json_error
from_json_payload_error (deserialize e) = from_json_error e
from_json_payload_error (other text) = unknown text

pub from_argon2_error : String → ErrorKind
from_argon2_error text = password_error text

pub from_add_event_error : AddEventError → ErrorKind
from_add_event_error e = add_event_error e

pub from_sled_error : String → ErrorKind
from_sled_error text = sled_error text

pub from_bincode_error : String → ErrorKind
from_bincode_error text = bincode_error text
