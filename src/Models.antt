-- ===== src/Models.antt =====
-- pkg/models/models.go: levels, entry types, payload types, quota categories and log entries.
-- A time is the number of nanoseconds since Go's zero time, so 0 is the zero `time.Time`.
use logflux_go_sdk.Prelude.{
  ℕ, ℤ, pos, Str, Bool, ◌&&◌, ◌||◌, List, Option, leb_ℤ, eqb_ℤ, if◌then◌else◌,
}
pub mod Tests

abbrev pub Time : Type 0
Time = ℕ

abbrev pub log_level_emergency : ℤ
log_level_emergency = pos 1

abbrev pub log_level_alert : ℤ
log_level_alert = pos 2

abbrev pub log_level_critical : ℤ
log_level_critical = pos 3

abbrev pub log_level_error : ℤ
log_level_error = pos 4

abbrev pub log_level_warning : ℤ
log_level_warning = pos 5

abbrev pub log_level_notice : ℤ
log_level_notice = pos 6

abbrev pub log_level_info : ℤ
log_level_info = pos 7

abbrev pub log_level_debug : ℤ
log_level_debug = pos 8

abbrev pub entry_type_log : ℤ
entry_type_log = pos 1

abbrev pub entry_type_metric : ℤ
entry_type_metric = pos 2

abbrev pub entry_type_trace : ℤ
entry_type_trace = pos 3

abbrev pub entry_type_event : ℤ
entry_type_event = pos 4

abbrev pub entry_type_audit : ℤ
entry_type_audit = pos 5

abbrev pub entry_type_telemetry : ℤ
entry_type_telemetry = pos 6

abbrev pub entry_type_telemetry_managed : ℤ
entry_type_telemetry_managed = pos 7

abbrev pub payload_type_aes256_gcm_gzip_json : ℤ
payload_type_aes256_gcm_gzip_json = pos 1

abbrev pub payload_type_gzip_json : ℤ
payload_type_gzip_json = pos 3

-- The three constant strings `CategoryEvents`, `CategoryTraces`, `CategoryAudit`.
pub data Category : Type 0 where
  events traces audit : Category

unfoldable pub entry_type_category : ℤ → Category
entry_type_category t =
    if eqb_ℤ t entry_type_log || eqb_ℤ t entry_type_metric || eqb_ℤ t entry_type_event
    then events
    else if eqb_ℤ t entry_type_trace
        || eqb_ℤ t entry_type_telemetry
        || eqb_ℤ t entry_type_telemetry_managed
    then traces
    else if eqb_ℤ t entry_type_audit
    then audit
    else events

unfoldable pub entry_type_requires_encryption : ℤ → Bool
entry_type_requires_encryption t = leb_ℤ (pos 1) t && leb_ℤ t (pos 6)

unfoldable pub default_payload_type : ℤ → ℤ
default_payload_type t =
    if eqb_ℤ t entry_type_telemetry_managed
    then payload_type_gzip_json
    else payload_type_aes256_gcm_gzip_json

-- A Go map, in the order in which a `range` over it happens to visit the keys; `none` is nil.
abbrev pub Labels : Type 0
Labels = Option (List (Str × Str))

pub record LogEntry : Type 0 where
  pub message : Str
  pub timestamp : Time
  pub level : ℤ
  pub entry_type : ℤ
  pub payload_type : ℤ
  pub node : Str
  pub labels : Labels
  pub search_tokens : List Str
