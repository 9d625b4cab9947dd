-- ===== src/Client/Resilient/Accounting.antt =====
-- pkg/client/resilient_client.go: what becomes of a message, and the drop statistics.
use logflux_go_sdk.Prelude.{
  ℕ, ◌+◌, ◌%◌, ◌^◌, ◌≡◌, refl, sym, ap, ◌∙◌, inl, inr, Bool, true, false, Option, none, some, arith,
  if◌then◌else◌, Bool-cases,
}
use logflux_go_sdk.Models.{LogEntry, entry_type_category}
use logflux_go_sdk.Queue.{Queue, enqueue}
use logflux_go_sdk.Queue.Fifo.{enqueue_refused}
use logflux_go_sdk.Client.Validate.{EntryError, validate_entry}
use logflux_go_sdk.Client.Resilient.State.{
  ResilientClient, QueueEntry, DropReason, DropReasons, SendError, add_reason, record_drop,
  add_int64, queue_overflow, network_error, send_error, rate_limited, quota_exceeded, before_send,
  validation, client_closed, queue_full, invalid,
}
use logflux_go_sdk.Client.Resilient.Enqueue.{
  Draws, Message, refuse, queue_entry, queue_result, admit, hook_result, run_hook, validated,
  entry_of, enqueue_entry,
}

-- The sum of the counts by reason, in int64.
abbrev pub sum_reasons : DropReasons → ℕ
sum_reasons r =
    (r.queue_overflow_count + r.network_error_count + r.send_error_count + r.rate_limited_count
      + r.quota_exceeded_count + r.before_send_count + r.validation_count)
    % 2 ^ 64

-- The total is the sum of the counts by reason.
abbrev pub AddsUp : ResilientClient → Type 0
AddsUp c = c.total_dropped ≡ sum_reasons c.drop_reasons

pub sum-add_reason :
    (r : DropReasons) (reason : DropReason) (n : ℕ)
    → sum_reasons (add_reason r reason n) ≡ add_int64 (sum_reasons r) n
unfolding add_reason
sum-add_reason r queue_overflow n = omega arith
sum-add_reason r network_error n = omega arith
sum-add_reason r send_error n = omega arith
sum-add_reason r rate_limited n = omega arith
sum-add_reason r quota_exceeded n = omega arith
sum-add_reason r before_send n = omega arith
sum-add_reason r validation n = omega arith

pub record_drop-AddsUp :
    (c : ResilientClient) (reason : DropReason) (n : ℕ) → AddsUp c → AddsUp (record_drop c reason n)
unfolding record_drop
record_drop-AddsUp c reason n h =
    ap (λ t. add_int64 t n) h ∙ sym (sum-add_reason c.drop_reasons reason n)

-- The client after an entry went into its queue.
abbrev pub after_enqueue : Draws → ResilientClient → LogEntry → ResilientClient
after_enqueue d c entry = record c {
  queue = (enqueue c.queue (queue_entry d entry)).0;
  total_queued = add_int64 c.total_queued 1;
}

-- What becomes of an entry: it is in the queue and counted as queued, or dropped and counted once
-- under one reason, with an error only if the failsafe mode is off.
pub data Fate (d : Draws) (c : ResilientClient) (r : ResilientClient × Option SendError)
    : Type 0 where
  queued :
      (entry : LogEntry)
      → (enqueue c.queue (queue_entry d entry)).1 ≡ true
      → r ≡ (after_enqueue d c entry, none)
      → Fate d c r
  dropped :
      (reason : DropReason) (error : Option SendError)
      → r ≡ (record_drop c reason 1, if c.config.failsafe_mode then none else error)
      → Fate d c r

refuse-Fate :
    (d : Draws) (c : ResilientClient) (reason : DropReason) (e : SendError)
    → Fate d c (refuse (record_drop c reason 1) e)
unfolding refuse record_drop
refuse-Fate d c reason e = dropped reason (some e) refl

queue_result-Fate :
    (d : Draws) (c : ResilientClient) (entry : LogEntry) (q : Queue QueueEntry) (b : Bool)
    → enqueue c.queue (queue_entry d entry) ≡ (q, b)
    → Fate d c (queue_result c (q, b))
unfolding queue_result
queue_result-Fate d c entry q true h = queued entry (ap (λ (x : Queue QueueEntry × Bool). x.1) h) (
    ap
      (λ (x : Queue QueueEntry × Bool).
        (record c { queue = x.0; total_queued = add_int64 c.total_queued 1 }, none))
      (sym h))
queue_result-Fate d c entry q false h =
    rw
      (sym (ap (λ (x : Queue QueueEntry × Bool). x.0) h)
        ∙ enqueue_refused c.queue (queue_entry d entry)
            (ap (λ (x : Queue QueueEntry × Bool). x.1) h))
      (refuse-Fate d c queue_overflow queue_full)

admit-Fate : (d : Draws) (c : ResilientClient) (entry : LogEntry) → Fate d c (admit d c entry)
unfolding admit
admit-Fate d c entry = elim (Bool-cases (c.quota_blocked (entry_type_category entry.entry_type))) [
  | inl b ↦ rw b (refuse-Fate d c quota_exceeded _)
  | inr b ↦ rw b (queue_result-Fate d c entry _ _ refl)
]

hook_result-Fate :
    (d : Draws) (c : ResilientClient) (o : Option LogEntry) → Fate d c (hook_result d c o)
unfolding hook_result
hook_result-Fate d c none =
    dropped before_send none
      (ap (λ o. (record_drop c before_send 1, o)) (same c.config.failsafe_mode))
  where
    same : (b : Bool) → ◌≡◌ {A = Option SendError} none (if b then none else none)
    same true = refl
    same false = refl
hook_result-Fate d c (some entry) = admit-Fate d c entry

run_hook-Fate :
    (d : Draws) (c : ResilientClient) (entry : LogEntry) (h : Option (LogEntry → Option LogEntry))
    → Fate d c (run_hook d c entry h)
unfolding run_hook
run_hook-Fate d c entry none = admit-Fate d c entry
run_hook-Fate d c entry (some hook) = hook_result-Fate d c (hook entry)

validated-Fate :
    (d : Draws) (c : ResilientClient) (entry : LogEntry) (o : Option EntryError)
    → Fate d c (validated d c entry o)
unfolding validated
validated-Fate d c entry none = run_hook-Fate d c entry c.config.hook
validated-Fate d c entry (some e) = refuse-Fate d c validation (invalid e)

-- Every message that is sent to an open client either joins the queue, and counts once as queued and
-- not as dropped, or leaves the client as it was but for one drop under one reason. In failsafe mode
-- no drop is an error.
pub enqueue_entry-Fate :
    (d : Draws) (c : ResilientClient) (m : Message)
    → c.closed ≡ false
    → Fate d c (enqueue_entry d c m)
unfolding enqueue_entry
enqueue_entry-Fate d c m h = simp h (
    validated-Fate d c (entry_of c.config.node m)
      (validate_entry d.clock (entry_of c.config.node m)))

-- A closed client takes nothing, and counts nothing.
pub enqueue_entry_closed :
    (d : Draws) (c : ResilientClient) (m : Message)
    → c.closed ≡ true
    → enqueue_entry d c m ≡ refuse c client_closed
unfolding enqueue_entry
enqueue_entry_closed d c m h = simp h

refuse_silent :
    (c : ResilientClient) (e : SendError) → c.config.failsafe_mode ≡ true → (refuse c e).1 ≡ none
unfolding refuse
refuse_silent c e f = simp f

Fate-silent :
    (d : Draws) (c : ResilientClient) (r : ResilientClient × Option SendError)
    → Fate d c r
    → c.config.failsafe_mode ≡ true
    → r.1 ≡ none
Fate-silent d c r (queued entry h e) f = ap (λ (x : ResilientClient × Option SendError). x.1) e
Fate-silent d c r (dropped reason error e) f =
    ap (λ (x : ResilientClient × Option SendError). x.1) e ∙ simp f

-- In failsafe mode no send through the queue ever returns an error, on any client and any message.
pub enqueue_entry_silent :
    (d : Draws) (c : ResilientClient) (m : Message)
    → c.config.failsafe_mode ≡ true
    → (enqueue_entry d c m).1 ≡ none
enqueue_entry_silent d c m f = elim (Bool-cases c.closed) [
  | inl h ↦ rw (enqueue_entry_closed d c m h) (refuse_silent c client_closed f)
  | inr h ↦ Fate-silent d c _ (enqueue_entry-Fate d c m h) f
]

refuse-AddsUp : (c : ResilientClient) (e : SendError) → AddsUp c → AddsUp (refuse c e).0
unfolding refuse
refuse-AddsUp c e a = a

Fate-AddsUp :
    (d : Draws) (c : ResilientClient) (r : ResilientClient × Option SendError)
    → Fate d c r
    → AddsUp c
    → AddsUp r.0
Fate-AddsUp d c r (queued entry h e) a = rw e a
Fate-AddsUp d c r (dropped reason error e) a = rw e (record_drop-AddsUp c reason 1 a)

-- A send through the queue keeps the total of the drops equal to the sum of the counts by reason.
pub enqueue_entry-AddsUp :
    (d : Draws) (c : ResilientClient) (m : Message) → AddsUp c → AddsUp (enqueue_entry d c m).0
enqueue_entry-AddsUp d c m a = elim (Bool-cases c.closed) [
  | inl h ↦ rw (enqueue_entry_closed d c m h) (refuse-AddsUp c client_closed a)
  | inr h ↦ Fate-AddsUp d c _ (enqueue_entry-Fate d c m h) a
]
