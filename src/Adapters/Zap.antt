-- ===== src/Adapters/Zap.antt =====
-- pkg/adapters/zap.go: a logger with a list of fields, and its sugared form. What `fmt.Sprint` and
-- `fmt.Sprintf` made of their arguments is the text that the operations take. `append` on the fields of a
-- logger may write behind them; no other slice of one goroutine reads what it writes there.
mod Sugar
mod Tests
use logflux_go_sdk.Prelude.{
  ℕ, ℤ, pos, negsuc, eqb_ℤ, ltb_ℤ, Bool, true, false, not, ◌||◌, List, [], ◌∷◌, ◌++◌, Option, none,
  some, map, if◌then◌else◌, ◌==◌, length, Str, codes, str_eq, join,
}
use logflux_go_sdk.Models.{log_level_critical, log_level_error, log_level_warning, log_level_info}
use logflux_go_sdk.Retry.Errors.{int_text}
use logflux_go_sdk.Adapters.{
  Sent, Ending, returns, exits, panics, FieldValue, string_value, bytes_value, other_value,
  signed_value, unsigned_value, float_value, bool_value, time_value, duration_value,
  number_list_text, Texts,
}

abbrev pub zap_debug_level : ℤ
zap_debug_level = negsuc 0

abbrev pub zap_info_level : ℤ
zap_info_level = pos 0

abbrev pub zap_warn_level : ℤ
zap_warn_level = pos 1

abbrev pub zap_error_level : ℤ
zap_error_level = pos 2

abbrev pub zap_dpanic_level : ℤ
zap_dpanic_level = pos 3

abbrev pub zap_panic_level : ℤ
zap_panic_level = pos 4

abbrev pub zap_fatal_level : ℤ
zap_fatal_level = pos 5

pub record ZapField : Type 0 where
  pub key : Str
  pub value : FieldValue

-- The logger without its client.
pub record ZapLogger : Type 0 where
  pub level : ℤ
  pub fields : List ZapField

unfoldable pub new_zap_logger : ZapLogger
new_zap_logger = record { level = zap_info_level; fields = [] }

unfoldable pub map_zap_level : ℤ → ℤ
map_zap_level level =
    if eqb_ℤ level zap_debug_level
    then pos 8
    else if eqb_ℤ level zap_info_level
    then log_level_info
    else if eqb_ℤ level zap_warn_level
    then log_level_warning
    else if eqb_ℤ level zap_error_level
    then log_level_error
    else if eqb_ℤ level zap_dpanic_level
        || eqb_ℤ level zap_panic_level
        || eqb_ℤ level zap_fatal_level
    then log_level_critical
    else log_level_info

-- Bytes have no case of their own.
unfoldable pub format_zap_value : Texts → FieldValue → Str
unfolding number_list_text
format_zap_value t (string_value s) = s
format_zap_value t (signed_value n) = int_text n
format_zap_value t (unsigned_value n) = int_text (pos n)
format_zap_value t (float_value x) = t.float_text x
format_zap_value t (bool_value b) = if b then codes "true" else codes "false"
format_zap_value t (time_value x) = t.time_text x
format_zap_value t (duration_value d) = t.duration_text d
format_zap_value t (bytes_value s) = number_list_text s
format_zap_value t (other_value s) = s

abbrev pub zap_field_text : Texts → ZapField → Str
zap_field_text t f = f.key ++ (codes "=" ++ format_zap_value t f.value)

unfoldable pub format_message : Texts → Str → List ZapField → Str
unfolding format_zap_value
format_message t message fields =
    if length fields == 0
    then message
    else (let parts = join (codes " ") (map (zap_field_text t) fields) in
        if not (str_eq message []) then message ++ (codes " " ++ parts) else parts)

unfoldable pub named : ZapLogger → Str → ZapLogger
named l name = record l {
  fields = l.fields ++ record { key = codes "logger"; value = string_value name } ∷ [];
}

unfoldable pub with : ZapLogger → List ZapField → ZapLogger
with l fields = record l { fields = l.fields ++ fields }

unfoldable pub check : ZapLogger → ℤ → Option ZapLogger
check l level = if ltb_ℤ level l.level then none else some l

-- `Error` and `NamedError` make a field of an error, which is its text, or none for nil.
unfoldable pub named_error : Str → Option Str → ZapField
named_error key none = record { key = key; value = string_value (codes "<nil>") }
named_error key (some e) = record { key = key; value = string_value e }

module _ (t : Texts) where
  -- The call that a method makes at its level, if any: what `Debug` to `DPanic` do.
  unfoldable pub log_at : ZapLogger → ℤ → Str → List ZapField → Option Sent
  unfolding format_message map_zap_level
  log_at l level message fields =
      if ltb_ℤ level l.level
      then none
      else some (record {
        text = format_message t message (l.fields ++ fields);
        level = map_zap_level level;
      })

  unfoldable pub panic : ZapLogger → Str → List ZapField → Option Sent × Ending
  unfolding log_at
  panic l message fields = (call, ending call)
    where
      call : Option Sent
      call = log_at l zap_panic_level message fields

      ending : Option Sent → Ending
      ending none = returns
      ending (some sent) = panics sent.text

  unfoldable pub fatal : ZapLogger → Str → List ZapField → Option Sent × Ending
  unfolding log_at
  fatal l message fields = (log_at l zap_fatal_level message fields, exits 1)

-- The fields that the sugared methods make of their arguments: the pairs whose first is a string.
unfoldable pub sugar_fields : List FieldValue → List ZapField
sugar_fields [] = []
sugar_fields (key ∷ []) = []
sugar_fields (string_value key ∷ value ∷ args) =
    record { key = key; value = value } ∷ sugar_fields args
sugar_fields (key ∷ value ∷ args) = sugar_fields args

unfoldable pub sugar_with : ZapLogger → List FieldValue → ZapLogger
unfolding with sugar_fields
sugar_with l args = with l (sugar_fields args)

-- The sugared methods `Debug` to `Fatal` with their variants, by level: `args` is empty but for those
-- whose names end in `w`.
unfoldable pub sugar_log : Texts → ZapLogger → ℤ → Str → List FieldValue → Option Sent × Ending
unfolding log_at panic fatal sugar_fields
sugar_log t l level message args =
    if eqb_ℤ level zap_fatal_level
    then fatal t l message (sugar_fields args)
    else if eqb_ℤ level zap_panic_level
    then panic t l message (sugar_fields args)
    else (log_at t l level message (sugar_fields args), returns)
