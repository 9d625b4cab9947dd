-- ===== src/Client/Resilient/Methods.antt =====
-- pkg/client/resilient_client.go: the send methods that call those of Enqueue, the methods that read or
-- set the configuration, and Flush.
use logflux_go_sdk.Prelude.{
  ℤ, Bool, true, false, Str, codes, itoa, List, [], ◌∷◌, ◌++◌, Option, none, some, if◌then◌else◌,
}
use logflux_go_sdk.Models.{
  Time, Labels, log_level_emergency, log_level_alert, log_level_critical, log_level_error,
  log_level_warning, log_level_notice, log_level_info, log_level_debug,
}
use logflux_go_sdk.Discovery.{EndpointInfo, get_health_url}
use logflux_go_sdk.Retry
use logflux_go_sdk.Retry.{Runtime}
use logflux_go_sdk.Retry.Readiness
use logflux_go_sdk.Queue.{Queue, is_empty, size}
use logflux_go_sdk.Client.Resilient.State.{ResilientClient, SendError, QueueEntry}
use logflux_go_sdk.Client.Resilient.Enqueue.{
  Draws, send_log_with_timestamp_level_and_labels, send_log_with_level,
}

module _ (d : Draws) (c : ResilientClient) where
  unfoldable pub send_log_with_timestamp_and_level :
      Str → Time → ℤ → ResilientClient × Option SendError
  unfolding send_log_with_timestamp_level_and_labels
  send_log_with_timestamp_and_level message timestamp level =
      send_log_with_timestamp_level_and_labels d c message timestamp level none

  unfoldable pub send_log_with_timestamp : Str → Time → ResilientClient × Option SendError
  unfolding send_log_with_timestamp_and_level
  send_log_with_timestamp message timestamp =
      send_log_with_timestamp_and_level message timestamp log_level_info

  unfoldable pub send_log_with_level_and_labels :
      Str → ℤ → Labels → ResilientClient × Option SendError
  unfolding send_log_with_timestamp_level_and_labels
  send_log_with_level_and_labels message level labels =
      send_log_with_timestamp_level_and_labels d c message d.clock.now level labels

  unfoldable pub send_log_with_labels : Str → Labels → ResilientClient × Option SendError
  unfolding send_log_with_timestamp_level_and_labels
  send_log_with_labels message labels =
      send_log_with_timestamp_level_and_labels d c message d.clock.now log_level_info labels

  unfoldable pub debug : Str → ResilientClient × Option SendError
  unfolding send_log_with_level
  debug message = send_log_with_level d c message log_level_debug

  unfoldable pub info : Str → ResilientClient × Option SendError
  unfolding send_log_with_level
  info message = send_log_with_level d c message log_level_info

  unfoldable pub warn : Str → ResilientClient × Option SendError
  unfolding send_log_with_level
  warn message = send_log_with_level d c message log_level_warning

  unfoldable pub warning : Str → ResilientClient × Option SendError
  unfolding send_log_with_level
  warning message = send_log_with_level d c message log_level_warning

  unfoldable pub error : Str → ResilientClient × Option SendError
  unfolding send_log_with_level
  error message = send_log_with_level d c message log_level_error

  unfoldable pub fatal : Str → ResilientClient × Option SendError
  unfolding send_log_with_level
  fatal message = send_log_with_level d c message log_level_critical

  unfoldable pub emergency : Str → ResilientClient × Option SendError
  unfolding send_log_with_level
  emergency message = send_log_with_level d c message log_level_emergency

  unfoldable pub alert : Str → ResilientClient × Option SendError
  unfolding send_log_with_level
  alert message = send_log_with_level d c message log_level_alert

  unfoldable pub critical : Str → ResilientClient × Option SendError
  unfolding send_log_with_level
  critical message = send_log_with_level d c message log_level_critical

  unfoldable pub notice : Str → ResilientClient × Option SendError
  unfolding send_log_with_level
  notice message = send_log_with_level d c message log_level_notice

  unfoldable pub debug_with_labels : Str → Labels → ResilientClient × Option SendError
  unfolding send_log_with_level_and_labels
  debug_with_labels message labels = send_log_with_level_and_labels message log_level_debug labels

  unfoldable pub info_with_labels : Str → Labels → ResilientClient × Option SendError
  unfolding send_log_with_level_and_labels
  info_with_labels message labels = send_log_with_level_and_labels message log_level_info labels

  unfoldable pub warn_with_labels : Str → Labels → ResilientClient × Option SendError
  unfolding send_log_with_level_and_labels
  warn_with_labels message labels = send_log_with_level_and_labels message log_level_warning labels

  unfoldable pub error_with_labels : Str → Labels → ResilientClient × Option SendError
  unfolding send_log_with_level_and_labels
  error_with_labels message labels = send_log_with_level_and_labels message log_level_error labels

  unfoldable pub fatal_with_labels : Str → Labels → ResilientClient × Option SendError
  unfolding send_log_with_level_and_labels
  fatal_with_labels message labels =
      send_log_with_level_and_labels message log_level_critical labels

-- The reset is a number of seconds, of which the method makes a time.
unfoldable pub get_rate_limit_info : ResilientClient → ℤ × ℤ × ℤ
get_rate_limit_info c = (c.rate_limit_limit, c.rate_limit_remaining, c.rate_limit_reset)

unfoldable pub enable_compression_mode : ResilientClient → Bool → ResilientClient
enable_compression_mode c enable = record c {
  config = record c.config { enable_compression = enable };
}

-- What the retryer of the client has for its configuration after `EnableResilientMode`. The endpoints
-- are set by every constructor.
unfoldable pub enable_resilient_mode :
    (rt : Runtime) → EndpointInfo → Retry.Config rt → Bool → Retry.Config rt
unfolding Readiness.enable_resilient_mode Readiness.set_health_check_url get_health_url
enable_resilient_mode rt endpoints config true =
    Readiness.set_health_check_url rt (Readiness.enable_resilient_mode rt config true)
      (get_health_url endpoints)
enable_resilient_mode rt endpoints config false = Readiness.enable_resilient_mode rt config false

-- A turn of the loop of `Flush`: the queue that `IsEmpty` reads, and the queue that the error names if
-- the timer fires before the next tick.
pub record Turn : Type 0 where
  pub seen : Queue QueueEntry
  pub timed_out : Option (Queue QueueEntry)

pub data Flushed : Type 0 where
  flushed going_on : Flushed
  flush_error : Str → Flushed

abbrev waited : Option (Queue QueueEntry) → Flushed → Flushed
waited none rest = rest
waited (some q) rest =
    flush_error (codes "flush timeout: queue still has " ++ itoa (size q) ++ codes " entries")

-- The turns end with the first in which the timer fires; `going_on` stands for a loop that goes on.
unfoldable pub flush : List Turn → Flushed
unfolding is_empty size
flush [] = going_on
flush (t ∷ ts) = let rest = flush ts in if is_empty t.seen then flushed else waited t.timed_out rest
