-- ===== src/Client/Validate.antt =====
-- The validation at the end of pkg/client/client.go. An `error` is `Option EntryError`, nil is none.
pub mod Acceptable
mod Tests
use logflux_go_sdk.Prelude.{
  ℕ, ◌+◌, ◌*◌, ◌^◌, ℤ, pos, ltb_ℤ, eqb_ℤ, Bool, true, false, not, ◌&&◌, ◌||◌, List, [], ◌∷◌, Option,
  none, some, if◌then◌else◌, ltb, ◌==◌, Str, codes, str_eq, to_lower, length,
}
use logflux_go_sdk.Models.{Time, Labels, LogEntry}

pub data EntryError : Type 0 where
  message_empty message_too_long timestamp_future timestamp_old : EntryError
  level_range entry_type_range too_many_labels label_key_empty : EntryError
  label_key_long label_value_long label_disallowed : Str → EntryError

-- What the code reads of the clock: the current time, and `now.AddDate(-1, 0, 0)`.
pub record Clock : Type 0 where
  pub now : Time
  pub year_ago : Time

abbrev pub minute : ℕ
minute = 60 * 1_000_000_000

unfoldable pub max_message_length : ℕ
max_message_length = 2 ^ 20

-- The next check, unless this one failed.
abbrev pub and_then : Option EntryError → Option EntryError → Option EntryError
and_then none next = next
and_then (some e) next = some e

abbrev pub fail_if : Bool → EntryError → Option EntryError
fail_if true e = some e
fail_if false e = none

unfoldable pub validate_timestamp : Clock → Time → Option EntryError
validate_timestamp clock ts =
    and_then (fail_if (ltb (clock.now + minute) ts) timestamp_future)
      (fail_if (ltb ts clock.year_ago) timestamp_old)

unfoldable pub validate_log_level : ℤ → Option EntryError
validate_log_level level = fail_if (ltb_ℤ level (pos 1) || ltb_ℤ (pos 8) level) level_range

unfoldable pub validate_entry_type : ℤ → Option EntryError
validate_entry_type entry_type =
    if eqb_ℤ entry_type (pos 0)
    then none
    else fail_if (ltb_ℤ entry_type (pos 1) || ltb_ℤ (pos 7) entry_type) entry_type_range

abbrev pub disallowed : List Str
disallowed =
    codes "customer"
    ∷ codes "application"
    ∷ codes "node"
    ∷ codes "timestamp"
    ∷ codes "loglevel"
    ∷ codes "key_uuid"
    ∷ []

unfoldable pub found : Str → List Str → Bool
found k [] = false
found k (x ∷ xs) = str_eq k x || found k xs

unfoldable pub validate_label : Str → Str → Option EntryError
validate_label k v = and_then (fail_if (length k == 0) label_key_empty) (
    and_then (fail_if (ltb 64 (length k)) (label_key_long k)) (
      and_then (fail_if (ltb 256 (length v)) (label_value_long k))
        (fail_if (found (to_lower k) disallowed) (label_disallowed k))))

unfoldable pub validate_each : List (Str × Str) → Option EntryError
validate_each [] = none
validate_each ((k, v) ∷ labels) = and_then (validate_label k v) (validate_each labels)

unfoldable pub validate_labels : Labels → Option EntryError
validate_labels none = none
validate_labels (some labels) =
    and_then (fail_if (ltb 20 (length labels)) too_many_labels) (validate_each labels)

unfoldable pub validate_entry : Clock → LogEntry → Option EntryError
validate_entry clock entry = and_then (fail_if (length entry.message == 0) message_empty) (
    and_then (fail_if (ltb max_message_length (length entry.message)) message_too_long) (
      and_then (if entry.timestamp == 0 then none else validate_timestamp clock entry.timestamp) (
        and_then (if eqb_ℤ entry.level (pos 0) then none else validate_log_level entry.level) (
          and_then
            (if eqb_ℤ entry.entry_type (pos 0) then none else validate_entry_type entry.entry_type)
            (validate_labels entry.labels)))))
