-- ===== src/Sdk/Levels.antt =====
-- logflux.go and scope.go: the functions by level, each a call of Log at a level, and Flush and Stats. A
-- formatted function is the function on the text that `fmt.Sprintf` makes.
use logflux_go_sdk.Prelude.{pos, false, List, [], Option, none, some, Str}
use logflux_go_sdk.Models.{
  log_level_emergency, log_level_alert, log_level_critical, log_level_error, log_level_warning,
  log_level_notice, log_level_info, log_level_debug,
}
use logflux_go_sdk.Payload.{Scope}
use logflux_go_sdk.Payload.Json.{Value}
use logflux_go_sdk.Client.Resilient.State.{ResilientClient, ClientStats, get_stats, no_drops}
use logflux_go_sdk.Client.Resilient.Methods.{Turn, Flushed, flushed}
use logflux_go_sdk.Client.Resilient.Methods
use logflux_go_sdk.Sdk.{Sdk, Moment, SdkError}
use logflux_go_sdk.Sdk.Sending
use logflux_go_sdk.Sdk.Scopes

module _ (render : List (Str × Value) → Str) (m : Moment) (s : Sdk) where
  unfoldable pub debug : Str → Sdk × Option SdkError
  unfolding Sending.log
  debug message = Sending.log render m s log_level_debug message none

  unfoldable pub info : Str → Sdk × Option SdkError
  unfolding Sending.log
  info message = Sending.log render m s log_level_info message none

  unfoldable pub notice : Str → Sdk × Option SdkError
  unfolding Sending.log
  notice message = Sending.log render m s log_level_notice message none

  unfoldable pub warn : Str → Sdk × Option SdkError
  unfolding Sending.log
  warn message = Sending.log render m s log_level_warning message none

  unfoldable pub warning : Str → Sdk × Option SdkError
  unfolding Sending.log
  warning message = Sending.log render m s log_level_warning message none

  unfoldable pub critical : Str → Sdk × Option SdkError
  unfolding Sending.log
  critical message = Sending.log render m s log_level_critical message none

  unfoldable pub alert : Str → Sdk × Option SdkError
  unfolding Sending.log
  alert message = Sending.log render m s log_level_alert message none

  unfoldable pub emergency : Str → Sdk × Option SdkError
  unfolding Sending.log
  emergency message = Sending.log render m s log_level_emergency message none

  unfoldable pub fatal : Str → Sdk × Option SdkError
  unfolding Sending.log
  fatal message = Sending.log render m s log_level_critical message none

  unfoldable pub error : Str → Sdk × Option SdkError
  unfolding Sending.log
  error message = Sending.log render m s log_level_error message none

  unfoldable pub scope_debug : Scope → Str → Scope × (Sdk × Option SdkError)
  unfolding Scopes.log
  scope_debug scope message = Scopes.log render m s scope log_level_debug message

  unfoldable pub scope_info : Scope → Str → Scope × (Sdk × Option SdkError)
  unfolding Scopes.log
  scope_info scope message = Scopes.log render m s scope log_level_info message

  unfoldable pub scope_notice : Scope → Str → Scope × (Sdk × Option SdkError)
  unfolding Scopes.log
  scope_notice scope message = Scopes.log render m s scope log_level_notice message

  unfoldable pub scope_warn : Scope → Str → Scope × (Sdk × Option SdkError)
  unfolding Scopes.log
  scope_warn scope message = Scopes.log render m s scope log_level_warning message

  unfoldable pub scope_error : Scope → Str → Scope × (Sdk × Option SdkError)
  unfolding Scopes.log
  scope_error scope message = Scopes.log render m s scope log_level_error message

  unfoldable pub scope_critical : Scope → Str → Scope × (Sdk × Option SdkError)
  unfolding Scopes.log
  scope_critical scope message = Scopes.log render m s scope log_level_critical message

abbrev flushed_by : Option ResilientClient → List Turn → Flushed
flushed_by none turns = flushed
flushed_by (some c) turns = Methods.flush turns

-- Without a client there is nothing to wait for; the turns are those of the client's method.
unfoldable pub flush : Sdk → List Turn → Flushed
unfolding Methods.flush
flush s turns = flushed_by s.client turns

abbrev zero_stats : ClientStats
zero_stats = record {
  entries_sent = 0;
  entries_dropped = 0;
  entries_queued = 0;
  queue_size = 0;
  queue_capacity = pos 0;
  reasons = no_drops;
  last_error = [];
  last_time = 0;
  handshake_ok = false;
}

abbrev stats_of : Option ResilientClient → ClientStats
stats_of none = zero_stats
stats_of (some c) = get_stats c

unfoldable pub stats : Sdk → ClientStats
unfolding get_stats
stats s = stats_of s.client
