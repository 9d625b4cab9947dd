-- ===== src/Adapters.antt =====
-- pkg/adapters: the adapters for other loggers, which only turn their calls into calls of
-- `SendLogWithTimestampAndLevel` on a client.
pub mod Zerolog
pub mod Logrus
pub mod Zap
pub mod Stdlib
use logflux_go_sdk.Prelude.{ℕ, ℤ, pos, Bool, List, [], ◌∷◌, ◌++◌, map, Str, codes, join}
use logflux_go_sdk.Models.{Time}
use logflux_go_sdk.Retry.Errors.{int_text}
use logflux_go_sdk.Payload.{assign}
use logflux_go_sdk.Payload.Float.{Float64}

-- A call of `SendLogWithTimestampAndLevel`, at the current time.
pub record Sent : Type 0 where
  pub text : Str
  pub level : ℤ

-- The dynamic types that the formatting tells apart; `other_value` has the text of `%v`.
pub data FieldValue : Type 0 where
  string_value bytes_value other_value : Str → FieldValue
  signed_value : ℤ → FieldValue
  unsigned_value : ℕ → FieldValue
  float_value : Float64 → FieldValue
  bool_value : Bool → FieldValue
  time_value : Time → FieldValue
  duration_value : ℤ → FieldValue

abbrev pub FieldMap : Type 0
FieldMap = List (Str × FieldValue)

abbrev byte_text : ℕ → Str
byte_text b = int_text (pos b)

-- What `%v` writes for bytes: their numbers, in brackets.
unfoldable pub number_list_text : Str → Str
number_list_text s = codes "[" ++ (join (codes " ") (map byte_text s) ++ codes "]")

-- Go's texts of a float under `%f`, of a time in RFC 3339 and under `%v`, and of a duration.
pub record Texts : Type 0 where
  pub float_text : Float64 → Str
  pub time_text : Time → Str
  pub time_default_text : Time → Str
  pub duration_text : ℤ → Str

-- How a method ends: it returns, ends the process with a code, or panics with a text.
pub data Ending : Type 0 where
  returns : Ending
  exits : ℕ → Ending
  panics : Str → Ending
