-- ===== src/Logger/Methods.antt =====
-- pkg/logger/logger.go: the methods of `Logger`, which call the synchronous client, and the global
-- logger. The text of a formatted method is the argument that `fmt.Sprintf` makes.
pub mod Delivery
use logflux_go_sdk.Prelude.{ℕ, Str, Bool, List, Option, none, some, Except, ok, err}
use logflux_go_sdk.Models.{Time}
use logflux_go_sdk.Config.{Strconv}
use logflux_go_sdk.Client.Connect.{Services}
use logflux_go_sdk.Client.Sync.{Client, EnvError, new_client_from_env}
use logflux_go_sdk.Client.Sync
use logflux_go_sdk.Client.Sync.Sends.{SyncError}
use logflux_go_sdk.Client.Sync.Methods.{
  World, send_log, send_log_with_timestamp, send_log_with_timestamp_and_level,
}
use logflux_go_sdk.Client.Sync.Methods
use logflux_go_sdk.Logger.{format_message, Sent}

pub record Logger : Type 0 where
  pub client : Client
  pub prefix : Str

unfoldable pub new_logger : Client → Str → Logger
new_logger client prefix = record { client = client; prefix = prefix }

-- The logger shares its client, so it sees what a call changes there.
abbrev pub with_client : Logger → Client × Option SyncError → Logger × Option SyncError
with_client l (c, e) = (record l { client = c }, e)

unfoldable pub log : World → Logger → Str → Logger × Option SyncError
unfolding format_message send_log
log w l message = with_client l (send_log w l.client (format_message l.prefix message))

unfoldable pub log_with_timestamp : World → Logger → Str → Time → Logger × Option SyncError
unfolding format_message send_log_with_timestamp
log_with_timestamp w l message timestamp =
    with_client l (send_log_with_timestamp w l.client (format_message l.prefix message) timestamp)

unfoldable pub info : World → Logger → Str → Logger × Option SyncError
unfolding format_message Methods.info
info w l message = with_client l (Methods.info w l.client (format_message l.prefix message))

unfoldable pub warn : World → Logger → Str → Logger × Option SyncError
unfolding format_message Methods.warn
warn w l message = with_client l (Methods.warn w l.client (format_message l.prefix message))

unfoldable pub error : World → Logger → Str → Logger × Option SyncError
unfolding format_message Methods.error
error w l message = with_client l (Methods.error w l.client (format_message l.prefix message))

unfoldable pub debug : World → Logger → Str → Logger × Option SyncError
unfolding format_message Methods.debug
debug w l message = with_client l (Methods.debug w l.client (format_message l.prefix message))

-- How a call ends: it returns an error or nil, or the process ends with a status.
pub data Ending : Type 0 where
  returns : Option SyncError → Ending
  exits : ℕ → Ending

-- The error of the client does not matter: the process ends.
unfoldable pub fatal : World → Logger → Str → Logger × Ending
unfolding format_message Methods.fatal
fatal w l message =
    ((with_client l (Methods.fatal w l.client (format_message l.prefix message))).0, exits 1)

unfoldable pub close : Logger → Logger
unfolding Sync.close
close l = record l { client = Sync.close l.client }

-- A call of a method.
pub data Call : Type 0 where
  call_log call_info call_warn call_error call_debug call_fatal : Str → Call
  call_log_with_timestamp : Str → Time → Call

abbrev pub returning : Logger × Option SyncError → Logger × Ending
returning (l, e) = (l, returns e)

unfoldable pub perform : World → Logger → Call → Logger × Ending
unfolding log info warn error debug fatal log_with_timestamp
perform w l (call_log message) = returning (log w l message)
perform w l (call_info message) = returning (info w l message)
perform w l (call_warn message) = returning (warn w l message)
perform w l (call_error message) = returning (error w l message)
perform w l (call_debug message) = returning (debug w l message)
perform w l (call_fatal message) = fatal w l message
perform w l (call_log_with_timestamp message timestamp) =
    returning (log_with_timestamp w l message timestamp)

unfoldable pub new_logger_from_env :
    Services → Strconv → (Str → Str) → Str → Str → Except EnvError Logger
unfolding new_client_from_env new_logger
new_logger_from_env world conv getenv node prefix =
    made (new_client_from_env world conv getenv node)
  where
    made : Except EnvError Client → Except EnvError Logger
    made (ok client) = ok (new_logger client prefix)
    made (err e) = err e

-- The first argument is `globalLogger`, which stays as it is on an error. The other logger of Go's
-- package `log` is not part of the state.
unfoldable pub setup_global_logger :
    Option Logger → Services → Strconv → (Str → Str) → Str → Str → Option Logger × Option EnvError
unfolding new_logger_from_env
setup_global_logger global world conv getenv node prefix =
    stored (new_logger_from_env world conv getenv node prefix)
  where
    stored : Except EnvError Logger → Option Logger × Option EnvError
    stored (ok l) = (some l, none)
    stored (err e) = (global, some e)
