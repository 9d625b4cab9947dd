-- ===== src/Client/Resilient/State.antt =====
-- pkg/client/resilient_client.go: the state of the client and its statistics. What a mutex guards is
-- read and written in one step. An int64 counter is kept as its bits, a number below 2 ^ 64.
use logflux_go_sdk.Prelude.{
  ℕ, ◌+◌, ◌%◌, ◌^◌, ◌*◌, ℤ, pos, leb_ℤ, Bool, Option, none, some, if◌then◌else◌, Str, length, codes,
  ◌==◌,
}
use logflux_go_sdk.Models.{Time, LogEntry, Category}
use logflux_go_sdk.Queue.{Queue}
use logflux_go_sdk.Queue
use logflux_go_sdk.Crypto.{Encryptor}
use logflux_go_sdk.Client.Validate.{EntryError}
use logflux_go_sdk.Retry.Errors.{GoError}

-- The constant strings of type `DropReason`.
pub data DropReason : Type 0 where
  queue_overflow network_error send_error rate_limited quota_exceeded before_send : DropReason
  validation : DropReason

-- The map from reasons to counts; a key that is missing counts 0.
pub record DropReasons : Type 0 where
  pub queue_overflow_count : ℕ
  pub network_error_count : ℕ
  pub send_error_count : ℕ
  pub rate_limited_count : ℕ
  pub quota_exceeded_count : ℕ
  pub before_send_count : ℕ
  pub validation_count : ℕ

abbrev pub no_drops : DropReasons
no_drops = record {
  queue_overflow_count = 0;
  network_error_count = 0;
  send_error_count = 0;
  rate_limited_count = 0;
  quota_exceeded_count = 0;
  before_send_count = 0;
  validation_count = 0;
}

-- int64 addition, on the bits.
abbrev pub add_int64 : ℕ → ℕ → ℕ
add_int64 a b = (a + b) % 2 ^ 64

-- `dropReasons[reason] += count`
unfoldable pub add_reason : DropReasons → DropReason → ℕ → DropReasons
add_reason r queue_overflow n = record r {
  queue_overflow_count = add_int64 r.queue_overflow_count n;
}
add_reason r network_error n = record r { network_error_count = add_int64 r.network_error_count n }
add_reason r send_error n = record r { send_error_count = add_int64 r.send_error_count n }
add_reason r rate_limited n = record r { rate_limited_count = add_int64 r.rate_limited_count n }
add_reason r quota_exceeded n = record r {
  quota_exceeded_count = add_int64 r.quota_exceeded_count n;
}
add_reason r before_send n = record r { before_send_count = add_int64 r.before_send_count n }
add_reason r validation n = record r { validation_count = add_int64 r.validation_count n }

-- queue.LogEntry
pub record QueueEntry : Type 0 where
  pub id : Str
  pub entry : LogEntry
  pub retries : ℕ
  pub created_at : Time

-- `ResilientClientConfig` without what goes to the handshake, the requests and the retryer. A
-- duration is its number of nanoseconds.
pub record ClientConfig : Type 0 where
  pub node : Str
  pub queue_size : ℤ
  pub flush_interval : ℤ
  pub batch_size : ℤ
  pub http_timeout : ℤ
  pub worker_count : ℤ
  pub failsafe_mode : Bool
  pub enable_compression : Bool
  pub hook : Option (LogEntry → Option LogEntry)

pub record ResilientClient : Type 0 where
  pub config : ClientConfig
  pub encryptor : Encryptor
  pub key_uuid : Str
  pub queue : Queue QueueEntry
  pub total_sent : ℕ
  pub total_queued : ℕ
  pub total_dropped : ℕ
  pub drop_reasons : DropReasons
  pub last_send_error : Str
  pub last_send_time : Time
  pub handshake_ok : Bool
  pub rate_limit_limit : ℤ
  pub rate_limit_remaining : ℤ
  pub rate_limit_reset : ℤ
  pub rate_limit_pause_until : Time
  pub quota_blocked : Category → Bool
  pub closed : Bool

-- The errors that the send methods return.
pub data SendError : Type 0 where
  client_closed queue_full batch_too_large : SendError
  invalid : EntryError → SendError
  over_quota : Category → SendError
  failed : GoError → SendError

unfoldable pub record_drop : ResilientClient → DropReason → ℕ → ResilientClient
unfolding add_reason
record_drop c reason count = record c {
  total_dropped = add_int64 c.total_dropped count;
  drop_reasons = add_reason c.drop_reasons reason count;
}

unfoldable pub record_error : ResilientClient → Str → ResilientClient
record_error c text = record c { last_send_error = text }

pub record ClientStats : Type 0 where
  pub entries_sent : ℕ
  pub entries_dropped : ℕ
  pub entries_queued : ℕ
  pub queue_size : ℕ
  pub queue_capacity : ℤ
  pub reasons : DropReasons
  pub last_error : Str
  pub last_time : Time
  pub handshake_ok : Bool

unfoldable pub get_stats : ResilientClient → ClientStats
get_stats c = record {
  entries_sent = c.total_sent;
  entries_dropped = c.total_dropped;
  entries_queued = c.total_queued;
  queue_size = Queue.size c.queue;
  queue_capacity = c.config.queue_size;
  reasons = c.drop_reasons;
  last_error = c.last_send_error;
  last_time = c.last_send_time;
  handshake_ok = c.handshake_ok;
}

-- `applyDefaults`, with the name that the operating system gives the host, if it gives one.
abbrev pub positive_or : ℤ → ℕ → ℤ
positive_or n default = if leb_ℤ n (pos 0) then pos default else n

abbrev pub default_node : Option Str → Str
default_node none = codes "unknown"
default_node (some name) = name

unfoldable pub apply_defaults : Option Str → ClientConfig → ClientConfig
apply_defaults host cfg = record cfg {
  queue_size = positive_or cfg.queue_size 1000;
  flush_interval = positive_or cfg.flush_interval (5 * 1_000_000_000);
  batch_size = positive_or cfg.batch_size 100;
  http_timeout = positive_or cfg.http_timeout (30 * 1_000_000_000);
  worker_count = positive_or cfg.worker_count 2;
  node = if length cfg.node == 0 then default_node host else cfg.node;
}
