-- ===== src/Client/Resilient/Verdict.antt =====
-- pkg/client/resilient_client.go: what becomes of a message that is sent, and why.
use logflux_go_sdk.Prelude.{
  ℕ, ◌≤◌, ◌≡◌, refl, sym, ap, subst, ◌∙◌, ◌⊎◌, inl, inr, Bool, true, false, [], ◌∷◌, ◌++◌, Option,
  none, some, arith, Bool-cases, length,
}
use logflux_go_sdk.Models.{LogEntry, entry_type_category}
use logflux_go_sdk.Queue.{Queue, enqueue}
use logflux_go_sdk.Queue.Fifo.{enqueue_refused, enqueue_accepted}
use logflux_go_sdk.Client.Validate.{EntryError, validate_entry}
use logflux_go_sdk.Client.Validate.Acceptable.{IsAcceptable, validate_entry_iff}
use logflux_go_sdk.Client.Resilient.State.{
  ResilientClient, QueueEntry, DropReason, DropReasons, SendError, add_reason, record_drop,
  add_int64, queue_overflow, network_error, send_error, rate_limited, quota_exceeded, before_send,
  validation, queue_full, invalid,
}
use logflux_go_sdk.Client.Resilient.Enqueue.{
  Draws, Message, refuse, queue_entry, queue_result, admit, hook_result, run_hook, validated,
  entry_of, enqueue_entry,
}
use logflux_go_sdk.Client.Resilient.Accounting.{sum_reasons, sum-add_reason}
use logflux_go_sdk.Client.Resilient.Meant.{IsOf, entry_of-IsOf, passed}

abbrev pub IsFull : Queue QueueEntry → Type 0
IsFull q = (q.closed ≡ true) ⊎ (q.max_size ≤ length q.items)

-- Why a message is not sent: `input` is its entry, and `q` and `blocked` what the client has.
pub data Cause (d : Draws) (c : ResilientClient) (input : LogEntry) : DropReason → Type 0 where
  unacceptable : ¬ IsAcceptable d.clock input → Cause d c input validation
  unwanted :
      IsAcceptable d.clock input → passed c.config.hook input ≡ none → Cause d c input before_send
  blocked :
      (entry : LogEntry)
      → IsAcceptable d.clock input
      → passed c.config.hook input ≡ some entry
      → c.quota_blocked (entry_type_category entry.entry_type) ≡ true
      → Cause d c input quota_exceeded
  full :
      (entry : LogEntry)
      → IsAcceptable d.clock input
      → passed c.config.hook input ≡ some entry
      → c.quota_blocked (entry_type_category entry.entry_type) ≡ false
      → IsFull c.queue
      → Cause d c input queue_overflow

abbrev pub count_of : DropReason → DropReasons → ℕ
count_of queue_overflow r = r.queue_overflow_count
count_of network_error r = r.network_error_count
count_of send_error r = r.send_error_count
count_of rate_limited r = r.rate_limited_count
count_of quota_exceeded r = r.quota_exceeded_count
count_of before_send r = r.before_send_count
count_of validation r = r.validation_count

-- The entry stands last in the queue and counts as queued, and nothing counts as dropped.
pub record Joins (d : Draws) (c c' : ResilientClient) (entry : LogEntry) : Type 0 where
  pub last : QueueEntry
  pub same : last.entry ≡ entry
  pub named : last.id ≡ d.id
  pub added : c'.queue.items ≡ c.queue.items ++ last ∷ []
  pub queued : c'.total_queued ≡ add_int64 c.total_queued 1
  pub none_dropped : c'.total_dropped ≡ c.total_dropped
  pub reasons : c'.drop_reasons ≡ c.drop_reasons

-- The queue stays, and one more drop counts, under this reason and, by the sum of the counts, no other.
pub record Drops (c c' : ResilientClient) (reason : DropReason) : Type 0 where
  pub queue : c'.queue ≡ c.queue
  pub queued : c'.total_queued ≡ c.total_queued
  pub dropped : c'.total_dropped ≡ add_int64 c.total_dropped 1
  pub counted : count_of reason c'.drop_reasons ≡ add_int64 (count_of reason c.drop_reasons) 1
  pub summed : sum_reasons c'.drop_reasons ≡ add_int64 (sum_reasons c.drop_reasons) 1

abbrev pub Silent : ResilientClient → Option SendError → Type 0
Silent c e = c.config.failsafe_mode ≡ true → e ≡ none

-- What becomes of a message, by its entry.
pub data Verdict (d : Draws) (c : ResilientClient) (input : LogEntry)
    (r : ResilientClient × Option SendError) : Type 0 where
  joins :
      (entry : LogEntry)
      → IsAcceptable d.clock input
      → passed c.config.hook input ≡ some entry
      → c.quota_blocked (entry_type_category entry.entry_type) ≡ false
      → ¬ IsFull c.queue
      → Joins d c r.0 entry
      → r.1 ≡ none
      → Verdict d c input r
  is_dropped :
      (reason : DropReason)
      → Cause d c input reason
      → Drops c r.0 reason
      → Silent c r.1
      → Verdict d c input r

record_drop-Drops :
    (c : ResilientClient) (reason : DropReason) → Drops c (record_drop c reason 1) reason
unfolding record_drop add_reason
record_drop-Drops c queue_overflow = record {
  queue = refl;
  queued = refl;
  dropped = refl;
  counted = refl;
  summed = sum-add_reason c.drop_reasons queue_overflow 1;
}
record_drop-Drops c network_error = record {
  queue = refl;
  queued = refl;
  dropped = refl;
  counted = refl;
  summed = sum-add_reason c.drop_reasons network_error 1;
}
record_drop-Drops c send_error = record {
  queue = refl;
  queued = refl;
  dropped = refl;
  counted = refl;
  summed = sum-add_reason c.drop_reasons send_error 1;
}
record_drop-Drops c rate_limited = record {
  queue = refl;
  queued = refl;
  dropped = refl;
  counted = refl;
  summed = sum-add_reason c.drop_reasons rate_limited 1;
}
record_drop-Drops c quota_exceeded = record {
  queue = refl;
  queued = refl;
  dropped = refl;
  counted = refl;
  summed = sum-add_reason c.drop_reasons quota_exceeded 1;
}
record_drop-Drops c before_send = record {
  queue = refl;
  queued = refl;
  dropped = refl;
  counted = refl;
  summed = sum-add_reason c.drop_reasons before_send 1;
}
record_drop-Drops c validation = record {
  queue = refl;
  queued = refl;
  dropped = refl;
  counted = refl;
  summed = sum-add_reason c.drop_reasons validation 1;
}

refused :
    (d : Draws) (c : ResilientClient) (input : LogEntry) (reason : DropReason) (e : SendError)
    → Cause d c input reason
    → Verdict d c input (refuse (record_drop c reason 1) e)
unfolding refuse record_drop
refused d c input reason e cause =
    is_dropped reason cause (record_drop-Drops c reason) (λ f. simp f refl)

enqueue-IsFull : (q : Queue QueueEntry) (x : QueueEntry) → (enqueue q x).1 ≡ false → IsFull q
unfolding enqueue
enqueue-IsFull q x h = ground arith

enqueue_room : (q : Queue QueueEntry) (x : QueueEntry) → (enqueue q x).1 ≡ true → ¬ IsFull q
unfolding enqueue
enqueue_room q x h f = ground arith

module _ (d : Draws) (c : ResilientClient) (input : LogEntry)
    (fine : IsAcceptable d.clock input) where
  admit-Verdict :
      (entry : LogEntry)
      → passed c.config.hook input ≡ some entry
      → Verdict d c input (admit d c entry)
  unfolding admit queue_result queue_entry
  admit-Verdict entry p =
      elim (Bool-cases (c.quota_blocked (entry_type_category entry.entry_type))) [
        | inl b ↦ rw b (refused d c input quota_exceeded _ (blocked entry fine p b))
        | inr b ↦ rw b (asked b (enqueue c.queue (queue_entry d entry)) refl)
      ]
    where
      asked :
          c.quota_blocked (entry_type_category entry.entry_type) ≡ false
          → (x : Queue QueueEntry × Bool) → enqueue c.queue (queue_entry d entry) ≡ x
          → Verdict d c input (queue_result c x)
      asked b (q, true) h =
          let taken = ap (λ (x : Queue QueueEntry × Bool). x.1) h in
          joins entry fine p b (enqueue_room c.queue (queue_entry d entry) taken)
            (record {
              last = queue_entry d entry;
              same = refl;
              named = refl;
              added =
                  ap (λ (x : Queue QueueEntry × Bool). x.0.items) (sym h)
                  ∙ (enqueue_accepted c.queue (queue_entry d entry) taken).0;
              queued = refl;
              none_dropped = refl;
              reasons = refl;
            })
            refl
      asked b (q, false) h =
          let left = ap (λ (x : Queue QueueEntry × Bool). x.1) h in
          let same : q ≡ c.queue =
            sym (ap (λ (x : Queue QueueEntry × Bool). x.0) h)
            ∙ enqueue_refused c.queue (queue_entry d entry) left in
          subst
            (λ q.
              Verdict d c input
                (refuse (record_drop (record c { queue = q }) queue_overflow 1) queue_full))
            (sym same)
            (refused d c input queue_overflow queue_full
              (full entry fine p b (enqueue-IsFull c.queue (queue_entry d entry) left)))

  run_hook-Verdict :
      (hook : Option (LogEntry → Option LogEntry))
      → c.config.hook ≡ hook
      → Verdict d c input (run_hook d c input hook)
  unfolding run_hook hook_result
  run_hook-Verdict none same = admit-Verdict input (rw same refl)
  run_hook-Verdict (some hook) same = kept (hook input) (rw same refl)
    where
      kept :
          (o : Option LogEntry)
          → passed c.config.hook input ≡ o
          → Verdict d c input (hook_result d c o)
      kept none p =
          is_dropped before_send (unwanted fine p) (record_drop-Drops c before_send) (λ f. refl)
      kept (some entry) p = admit-Verdict entry p

validated-Verdict :
    (d : Draws) (c : ResilientClient) (input : LogEntry) (o : Option EntryError)
    → validate_entry d.clock input ≡ o
    → Verdict d c input (validated d c input o)
unfolding validated
validated-Verdict d c input none h =
    run_hook-Verdict d c input ((validate_entry_iff d.clock input).0 h) c.config.hook refl
validated-Verdict d c input (some e) h =
    refused d c input validation (invalid e)
      (unacceptable (λ fine. let passes = (validate_entry_iff d.clock input).1 fine in cc))

-- What becomes of a message that is sent to an open client. Its entry has the message's text and fields and
-- the client's node. It joins the queue, last and as the `BeforeSend` callback made it, and counts once as
-- queued and not as dropped, exactly if it is acceptable, the callback keeps it, the quota of its category
-- is not used up and the open queue has room. Else the queue stays and one drop counts, under the first of
-- these that fails: validation, before_send, quota_exceeded, queue_overflow. In failsafe mode there is no
-- error.
pub enqueue_entry-Verdict :
    (d : Draws) (c : ResilientClient) (m : Message)
    → c.closed ≡ false
    → (input : LogEntry) × IsOf c.config.node m input × Verdict d c input (enqueue_entry d c m)
unfolding enqueue_entry
enqueue_entry-Verdict d c m h =
    let input = entry_of c.config.node m in
    (
      input,
      entry_of-IsOf c.config.node m,
      simp h (validated-Verdict d c input (validate_entry d.clock input) refl),
    )
