-- ===== src/Logger.antt =====
-- pkg/logger/logger.go: the logger with a prefix, and the asynchronous logger as steps of one system. A
-- send to the channel, a receive, and the two parts of Close are one step each; the select of the worker
-- may take any case that is ready.
pub mod Order
pub mod Methods
mod Tests
use logflux_go_sdk.Prelude.{
  ℕ, ◌<◌, ◌≡◌, Bool, true, false, ℤ, pos, ltb_ℤ, List, [], ◌∷◌, ◌++◌, Option, none, some,
  if◌then◌else◌, length, ltb, Str, codes, str_eq,
}
use logflux_go_sdk.Models.{Time, log_level_info}

-- What `formatMessage` makes of a message under a prefix.
unfoldable pub format_message : Str → Str → Str
format_message prefix message =
    if str_eq prefix [] then message else codes "[" ++ (prefix ++ (codes "] " ++ message))

-- An entry in the channel; level 0 stands for the default.
pub record Entry : Type 0 where
  pub message : Str
  pub timestamp : Time
  pub level : ℤ

-- A call of `SendLogWithTimestampAndLevel` on the client.
pub record Sent : Type 0 where
  pub text : Str
  pub timestamp : Time
  pub level : ℤ

-- The call that `sendEntry` makes; an error of it is only printed.
unfoldable pub send_entry : Str → Entry → Sent
unfolding format_message
send_entry prefix e = record {
  text = format_message prefix e.message;
  timestamp = e.timestamp;
  level = if ltb_ℤ (pos 0) e.level then e.level else log_level_info;
}

-- Where the goroutine of the worker is.
pub data Worker : Type 0 where
  waiting stopped : Worker
  sending : Entry → Worker

-- The logger with its channel, and what happened so far: the entries that the channel took, and the
-- calls that the worker made.
pub record AsyncLogger : Type 0 where
  pub prefix : Str
  pub buffer_size : ℕ
  pub log_chan : List Entry
  pub done : Bool
  pub client_closed : Bool
  pub worker : Worker
  pub taken_in : List Entry
  pub calls : List Sent

unfoldable pub new_async_logger : Str → ℕ → AsyncLogger
new_async_logger prefix buffer_size = record {
  prefix = prefix;
  buffer_size = buffer_size;
  log_chan = [];
  done = false;
  client_closed = false;
  worker = waiting;
  taken_in = [];
  calls = [];
}

-- `enqueue`: an entry that the channel has no room for is dropped.
unfoldable pub enqueue : AsyncLogger → Entry → AsyncLogger
enqueue l e =
    if ltb (length l.log_chan) l.buffer_size
    then record l { log_chan = l.log_chan ++ e ∷ []; taken_in = l.taken_in ++ e ∷ [] }
    else l

abbrev pub with_level : ℤ → Str → Time → Entry
with_level level message now = record { message = message; timestamp = now; level = level }

unfoldable pub log : AsyncLogger → Str → Time → AsyncLogger
unfolding enqueue
log l message now = enqueue l (with_level (pos 0) message now)

unfoldable pub info : AsyncLogger → Str → Time → AsyncLogger
unfolding enqueue
info l message now = enqueue l (with_level (pos 7) message now)

unfoldable pub warn : AsyncLogger → Str → Time → AsyncLogger
unfolding enqueue
warn l message now = enqueue l (with_level (pos 5) message now)

unfoldable pub error : AsyncLogger → Str → Time → AsyncLogger
unfolding enqueue
error l message now = enqueue l (with_level (pos 4) message now)

unfoldable pub debug : AsyncLogger → Str → Time → AsyncLogger
unfolding enqueue
debug l message now = enqueue l (with_level (pos 8) message now)

-- The steps. With no buffer a send succeeds only while the worker waits, and hands the entry over. The
-- worker stops when `done` is closed and it finds the channel empty. Close closes `done` and then the
-- client; it does not wait for the worker.
pub data Step : AsyncLogger → AsyncLogger → Type 0 where
  put : (l : AsyncLogger) (e : Entry) → Step l (enqueue l e)
  hand_over :
      (l : AsyncLogger) (e : Entry)
      → l.worker ≡ waiting
      → l.log_chan ≡ []
      → l.buffer_size ≡ 0
      → Step l (record l { worker = sending e; taken_in = l.taken_in ++ e ∷ [] })
  receive :
      (l : AsyncLogger) (e : Entry) (rest : List Entry)
      → l.worker ≡ waiting
      → l.log_chan ≡ e ∷ rest
      → Step l (record l { worker = sending e; log_chan = rest })
  send :
      (l : AsyncLogger) (e : Entry)
      → l.worker ≡ sending e
      → Step l (record l { worker = waiting; calls = l.calls ++ send_entry l.prefix e ∷ [] })
  stop :
      (l : AsyncLogger)
      → l.worker ≡ waiting
      → l.done ≡ true
      → l.log_chan ≡ []
      → Step l (record l { worker = stopped })
  close_done : (l : AsyncLogger) → l.done ≡ false → Step l (record l { done = true })
  close_client : (l : AsyncLogger) → l.done ≡ true → Step l (record l { client_closed = true })

-- The states that a new logger can come to.
pub data Reach (prefix : Str) (buffer_size : ℕ) : AsyncLogger → Type 0 where
  start : Reach prefix buffer_size (new_async_logger prefix buffer_size)
  after :
      (l l' : AsyncLogger) → Reach prefix buffer_size l → Step l l' → Reach prefix buffer_size l'
