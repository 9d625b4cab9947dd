-- ===== src/Client/Resilient/Enqueue.antt =====
-- pkg/client/resilient_client.go: how an entry gets into the queue.
use logflux_go_sdk.Prelude.{
  ℤ, pos, eqb_ℤ, Bool, true, false, List, [], Option, none, some, if◌then◌else◌, Str,
}
use logflux_go_sdk.Models.{
  Time, Labels, LogEntry, entry_type_log, log_level_info, entry_type_category,
}
use logflux_go_sdk.Queue.{Queue, enqueue}
use logflux_go_sdk.Client.Validate.{EntryError, Clock, validate_entry}
use logflux_go_sdk.Client.Resilient.State.{
  ResilientClient, QueueEntry, SendError, client_closed, queue_full, invalid, over_quota,
  record_drop, queue_overflow, quota_exceeded, before_send, validation, add_int64,
}

-- What a call draws from outside: the clock, the random id, and the time of creation.
pub record Draws : Type 0 where
  pub clock : Clock
  pub id : Str
  pub created_at : Time

-- An error that the failsafe mode hides.
unfoldable pub refuse : ResilientClient → SendError → ResilientClient × Option SendError
refuse c e = (c, if c.config.failsafe_mode then none else some e)

unfoldable pub queue_entry : Draws → LogEntry → QueueEntry
queue_entry d entry = record { id = d.id; entry = entry; retries = 0; created_at = d.created_at }

-- The result of `queue.Enqueue`.
unfoldable pub queue_result :
    ResilientClient → Queue QueueEntry × Bool → ResilientClient × Option SendError
queue_result c (q, true) = (record c { queue = q; total_queued = add_int64 c.total_queued 1 }, none)
queue_result c (q, false) =
    refuse (record_drop (record c { queue = q }) queue_overflow 1) queue_full

-- From the quota check on.
unfoldable pub admit : Draws → ResilientClient → LogEntry → ResilientClient × Option SendError
unfolding queue_entry queue_result
admit d c entry =
    let category = entry_type_category entry.entry_type in
    if c.quota_blocked category
    then refuse (record_drop c quota_exceeded 1) (over_quota category)
    else queue_result c (enqueue c.queue (queue_entry d entry))

-- What `BeforeSend` returned: nil drops the entry.
unfoldable pub hook_result :
    Draws → ResilientClient → Option LogEntry → ResilientClient × Option SendError
unfolding admit
hook_result d c none = (record_drop c before_send 1, none)
hook_result d c (some entry) = admit d c entry

unfoldable pub run_hook :
    Draws
    → ResilientClient
    → LogEntry
    → Option (LogEntry → Option LogEntry)
    → ResilientClient × Option SendError
unfolding hook_result admit
run_hook d c entry none = admit d c entry
run_hook d c entry (some hook) = hook_result d c (hook entry)

-- What `validateEntry` returned.
unfoldable pub validated :
    Draws → ResilientClient → LogEntry → Option EntryError → ResilientClient × Option SendError
unfolding run_hook
validated d c entry (some e) = refuse (record_drop c validation 1) (invalid e)
validated d c entry none = run_hook d c entry c.config.hook

pub record Message : Type 0 where
  pub text : Str
  pub timestamp : Time
  pub level : ℤ
  pub entry_type : ℤ
  pub payload_type : ℤ
  pub labels : Labels
  pub search_tokens : List Str

-- The entry that a message of this node becomes; type 0 stands for a log.
unfoldable pub entry_of : Str → Message → LogEntry
entry_of node m = record {
  message = m.text;
  timestamp = m.timestamp;
  level = m.level;
  entry_type = if eqb_ℤ m.entry_type (pos 0) then entry_type_log else m.entry_type;
  payload_type = m.payload_type;
  node = node;
  labels = m.labels;
  search_tokens = m.search_tokens;
}

unfoldable pub enqueue_entry :
    Draws → ResilientClient → Message → ResilientClient × Option SendError
unfolding validated entry_of
enqueue_entry d c m =
    if c.closed
    then refuse c client_closed
    else let entry = entry_of c.config.node m in validated d c entry (validate_entry d.clock entry)

-- The send methods that others go through.
unfoldable pub send_log_with_timestamp_level_and_labels :
    Draws → ResilientClient → Str → Time → ℤ → Labels → ResilientClient × Option SendError
unfolding enqueue_entry
send_log_with_timestamp_level_and_labels d c text timestamp level labels =
    enqueue_entry d c (record {
      text = text;
      timestamp = timestamp;
      level = level;
      entry_type = entry_type_log;
      payload_type = pos 0;
      labels = labels;
      search_tokens = [];
    })

-- `time.Now()` of the call is the clock's.
unfoldable pub typed_message : Draws → Str → ℤ → ℤ → Message
typed_message d text level entry_type = record {
  text = text;
  timestamp = d.clock.now;
  level = level;
  entry_type = entry_type;
  payload_type = pos 0;
  labels = none;
  search_tokens = [];
}

unfoldable pub send_log_with_entry_type :
    Draws → ResilientClient → Str → ℤ → ℤ → ResilientClient × Option SendError
unfolding enqueue_entry typed_message
send_log_with_entry_type d c text level entry_type =
    enqueue_entry d c (typed_message d text level entry_type)

unfoldable pub send_log_with_level :
    Draws → ResilientClient → Str → ℤ → ResilientClient × Option SendError
unfolding send_log_with_timestamp_level_and_labels
send_log_with_level d c text level =
    send_log_with_timestamp_level_and_labels d c text d.clock.now level none

unfoldable pub send_log : Draws → ResilientClient → Str → ResilientClient × Option SendError
unfolding send_log_with_level
send_log d c text = send_log_with_level d c text log_level_info
