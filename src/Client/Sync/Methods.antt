-- ===== src/Client/Sync/Methods.antt =====
-- pkg/client/client.go: the send methods of the synchronous client that make an entry of their arguments,
-- and the methods that read the client. `time.Now()` is the clock's time.
use logflux_go_sdk.Prelude.{ℕ, ℤ, pos, Str, List, [], Option, none, eqb_ℤ, if◌then◌else◌}
use logflux_go_sdk.Models.{
  Time, Labels, LogEntry, entry_type_log, log_level_emergency, log_level_alert, log_level_critical,
  log_level_error, log_level_warning, log_level_notice, log_level_info, log_level_debug,
}
use logflux_go_sdk.Crypto.{Primitives}
use logflux_go_sdk.Client.Validate.{Clock}
use logflux_go_sdk.Client.Multipart.{Part}
use logflux_go_sdk.Client.Connect.{mask_api_key}
use logflux_go_sdk.Client.Sync.{Client}
use logflux_go_sdk.Client.Sync.Sends.{Transport, ErrorBody, SyncError, send_entry}

-- The entry of a log message of this client.
abbrev pub log_entry : Client → Str → Time → ℤ → ℤ → Labels → LogEntry
log_entry c message timestamp level entry_type labels = record {
  message = message;
  timestamp = timestamp;
  level = level;
  entry_type = entry_type;
  payload_type = pos 0;
  node = c.node;
  labels = labels;
  search_tokens = [];
}

unfoldable pub get_api_key_masked : Client → Str
unfolding mask_api_key
get_api_key_masked c = mask_api_key c.api_key

unfoldable pub get_rate_limit_info : Client → ℤ × ℤ × ℤ
get_rate_limit_info c = (c.rate_limit_limit, c.rate_limit_remaining, c.rate_limit_reset)

-- What a call uses of its surroundings: Go's library, the clock, the random source and the network.
pub record World : Type 0 where
  pub primitives : Primitives
  pub format : Time → Str
  pub decode : Str → Option ErrorBody
  pub clock : Clock
  pub draws : ℕ → Option Str
  pub http : List Part → Transport

unfoldable pub send_to : World → Client → LogEntry → Client × Option SyncError
unfolding send_entry
send_to w c entry = send_entry w.primitives w.format w.decode c w.clock w.draws w.http entry

module _ (w : World) (c : Client) where
  unfoldable pub send_log_with_timestamp_and_level : Str → Time → ℤ → Client × Option SyncError
  unfolding send_to
  send_log_with_timestamp_and_level message timestamp level =
      send_to w c (log_entry c message timestamp level entry_type_log none)

  unfoldable pub send_log_with_level : Str → ℤ → Client × Option SyncError
  unfolding send_log_with_timestamp_and_level
  send_log_with_level message level = send_log_with_timestamp_and_level message w.clock.now level

  unfoldable pub send_log : Str → Client × Option SyncError
  unfolding send_log_with_level
  send_log message = send_log_with_level message log_level_info

  unfoldable pub send_log_with_timestamp : Str → Time → Client × Option SyncError
  unfolding send_log_with_timestamp_and_level
  send_log_with_timestamp message timestamp =
      send_log_with_timestamp_and_level message timestamp log_level_info

  unfoldable pub send_log_with_timestamp_level_and_labels :
      Str → Time → ℤ → Labels → Client × Option SyncError
  unfolding send_to
  send_log_with_timestamp_level_and_labels message timestamp level labels =
      send_to w c (log_entry c message timestamp level entry_type_log labels)

  unfoldable pub send_log_with_timestamp_level_type_and_labels :
      Str → Time → ℤ → ℤ → Labels → Client × Option SyncError
  unfolding send_to
  send_log_with_timestamp_level_type_and_labels message timestamp level entry_type labels =
      let typed = if eqb_ℤ entry_type (pos 0) then entry_type_log else entry_type in
      send_to w c (log_entry c message timestamp level typed labels)

  unfoldable pub debug : Str → Client × Option SyncError
  unfolding send_log_with_level
  debug message = send_log_with_level message log_level_debug

  unfoldable pub info : Str → Client × Option SyncError
  unfolding send_log_with_level
  info message = send_log_with_level message log_level_info

  unfoldable pub warn : Str → Client × Option SyncError
  unfolding send_log_with_level
  warn message = send_log_with_level message log_level_warning

  unfoldable pub error : Str → Client × Option SyncError
  unfolding send_log_with_level
  error message = send_log_with_level message log_level_error

  unfoldable pub fatal : Str → Client × Option SyncError
  unfolding send_log_with_level
  fatal message = send_log_with_level message log_level_critical

  unfoldable pub emergency : Str → Client × Option SyncError
  unfolding send_log_with_level
  emergency message = send_log_with_level message log_level_emergency

  unfoldable pub alert : Str → Client × Option SyncError
  unfolding send_log_with_level
  alert message = send_log_with_level message log_level_alert

  unfoldable pub critical : Str → Client × Option SyncError
  unfolding send_log_with_level
  critical message = send_log_with_level message log_level_critical

  unfoldable pub warning : Str → Client × Option SyncError
  unfolding send_log_with_level
  warning message = send_log_with_level message log_level_warning

  unfoldable pub notice : Str → Client × Option SyncError
  unfolding send_log_with_level
  notice message = send_log_with_level message log_level_notice

  unfoldable pub send_log_with_labels : Str → Labels → Client × Option SyncError
  unfolding send_log_with_timestamp_level_and_labels
  send_log_with_labels message labels =
      send_log_with_timestamp_level_and_labels message w.clock.now log_level_info labels

  unfoldable pub send_log_with_level_and_labels : Str → ℤ → Labels → Client × Option SyncError
  unfolding send_log_with_timestamp_level_and_labels
  send_log_with_level_and_labels message level labels =
      send_log_with_timestamp_level_and_labels message w.clock.now level labels

  unfoldable pub send_log_with_entry_type : Str → ℤ → ℤ → Client × Option SyncError
  unfolding send_log_with_timestamp_level_type_and_labels
  send_log_with_entry_type message level entry_type =
      send_log_with_timestamp_level_type_and_labels message w.clock.now level entry_type none
