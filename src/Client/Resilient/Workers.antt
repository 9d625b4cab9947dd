-- ===== src/Client/Resilient/Workers.antt =====
-- pkg/client/resilient_client.go and pkg/queue/queue.go: the workers, as steps between their locks.
-- A worker stands at a point of `worker` or of `DequeueWithContext`.
pub mod Gains
pub mod Conservation
pub mod Flow
pub mod Passing
pub mod Whereabouts
pub mod Signals
pub mod Wakeup
pub mod Progress
pub mod Shutdown
pub mod Exit
mod Tests
use logflux_go_sdk.Prelude.{
  ℕ, ◌+◌, ◌-◌, ◌≡◌, ℤ, pos, pos_part, ltb_ℤ, Bool, true, false, List, [], ◌∷◌, ◌++◌, map, Option,
  none, some, if◌then◌else◌, Str, length, ltb, replicate,
}
use logflux_go_sdk.Models.{Time, LogEntry}
use logflux_go_sdk.Queue.{Queue, enqueue, dequeue, dequeue_batch, close, must_stop}
use logflux_go_sdk.Crypto.{Primitives, CryptoError, Encryptor}
use logflux_go_sdk.Retry.Errors.{GoError}
use logflux_go_sdk.Retry.{Runtime, Config, Round, done, retry}
use logflux_go_sdk.Client.Multipart.{Part}
use logflux_go_sdk.Client.Resilient.State.{
  ResilientClient, QueueEntry, rate_limited, record_drop, add_int64,
}
use logflux_go_sdk.Client.Resilient.Enqueue.{Draws, Message, enqueue_entry}
use logflux_go_sdk.Client.Resilient.Sending.{
  Transport, send_multipart, handle_send_error, start_batch, finish_batch,
}
use logflux_go_sdk.Client.Resilient.Sending
use logflux_go_sdk.Client.Validate.{Clock}

-- What the client was built over: the primitives of the body, and the retryer.
pub record Setting : Type 1 where
  pub primitives : Primitives
  pub format : Time → Str
  pub build_text : CryptoError → Str
  pub runtime : Runtime
  pub config : Config runtime

-- `polling` is before a `Dequeue`, `found_empty` after one that returned nil, `blocked` in the select,
-- `draining` in its case `closeCh`; then a worker has an entry, waits for the end of a rate limit, is
-- about to gather a batch, or sends one.
pub data Worker : Type 0 where
  polling found_empty blocked draining pausing exited : Worker
  holding gathering : QueueEntry → Worker
  sending : List LogEntry → Worker

re_enqueued : ResilientClient → Queue QueueEntry × Bool → ResilientClient
re_enqueued c (q, true) = record c { queue = q }
re_enqueued c (q, false) = record_drop (record c { queue = q }) rate_limited 1

-- `if !c.queue.Enqueue(*entry) { c.recordDrop(DropRateLimited, 1) }`
unfoldable pub re_enqueue : ResilientClient → QueueEntry → ResilientClient
unfolding re_enqueued
re_enqueue c entry = re_enqueued c (enqueue c.queue entry)

-- The entries of a batch: the one in hand, and more up to the batch size.
unfoldable pub gather : ResilientClient → QueueEntry → ResilientClient × List LogEntry
gather c entry =
    if ltb_ℤ (pos 1) c.config.batch_size
    then (let (q, extra) = dequeue_batch c.queue (pos_part c.config.batch_size - 1) in
        (record c { queue = q }, entry.entry ∷ map (λ (e : QueueEntry). e.entry) extra))
    else (c, entry.entry ∷ [])

-- What a worker does with the result of `Retry`.
unfoldable pub deliver : (ℤ → Str) → ResilientClient → Time → ℕ → Option GoError → ResilientClient
deliver duration_text c now count none = record c {
  total_sent = add_int64 c.total_sent count;
  last_send_time = now;
}
deliver duration_text c now count (some e) = handle_send_error duration_text c e count

-- One step of one worker, with the client before and after it. `cancelled` tells whether the client's
-- context is. A delivery may end in any way in which `Retry` can.
pub data WorkerStep (g : Setting) (cancelled : Bool)
    : ResilientClient → Worker → ResilientClient → Worker → Type 0 where
  found :
      {c : ResilientClient} (q : Queue QueueEntry) (e : QueueEntry)
      → dequeue c.queue ≡ (q, some e)
      → WorkerStep g cancelled c polling (record c { queue = q }) (holding e)
  missed :
      {c : ResilientClient} (q : Queue QueueEntry)
      → dequeue c.queue ≡ (q, none)
      → WorkerStep g cancelled c polling (record c { queue = q }) found_empty
  stops :
      {c : ResilientClient}
      → must_stop c.queue ≡ true
      → WorkerStep g cancelled c found_empty c exited
  waits :
      {c : ResilientClient}
      → must_stop c.queue ≡ false
      → WorkerStep g cancelled c found_empty c blocked
  sees_cancel : {c : ResilientClient} → cancelled ≡ true → WorkerStep g cancelled c blocked c exited
  sees_close :
      {c : ResilientClient} → c.queue.close_ch ≡ true → WorkerStep g cancelled c blocked c draining
  sees_entry :
      {c : ResilientClient}
      → c.queue.not_empty ≡ true
      → WorkerStep g cancelled c blocked
          (record c { queue = record c.queue { not_empty = false } })
          polling
  drains :
      {c : ResilientClient} (q : Queue QueueEntry) (e : QueueEntry)
      → dequeue c.queue ≡ (q, some e)
      → WorkerStep g cancelled c draining (record c { queue = q }) (holding e)
  drained :
      {c : ResilientClient} (q : Queue QueueEntry)
      → dequeue c.queue ≡ (q, none)
      → WorkerStep g cancelled c draining (record c { queue = q }) exited
  limited :
      {c : ResilientClient} (e : QueueEntry) (now : Time)
      → ltb now c.rate_limit_pause_until ≡ true
      → WorkerStep g cancelled c (holding e) (re_enqueue c e) pausing
  unlimited :
      {c : ResilientClient} (e : QueueEntry) (now : Time)
      → ltb now c.rate_limit_pause_until ≡ false
      → WorkerStep g cancelled c (holding e) c (gathering e)
  paused : {c : ResilientClient} → WorkerStep g cancelled c pausing c polling
  pause_cancelled :
      {c : ResilientClient} → cancelled ≡ true → WorkerStep g cancelled c pausing c exited
  gathers :
      {c : ResilientClient} (e : QueueEntry)
      → WorkerStep g cancelled c (gathering e) (gather c e).0 (sending (gather c e).1)
  attempts :
      {c : ResilientClient} (entries : List LogEntry) (now : Time) (draws : ℕ → Option Str)
      (answer : List Part → Transport)
      → WorkerStep g cancelled c
          (sending entries)
          (send_multipart g.primitives g.format g.build_text c now draws entries answer).0
          (sending entries)
  delivers :
      {c : ResilientClient} (entries : List LogEntry) (now : Time) (rounds : List (Round g.runtime))
      (res : Option GoError)
      → retry g.runtime g.config rounds ≡ done res
      → WorkerStep g cancelled c
          (sending entries)
          (deliver g.runtime.duration_text c now (length entries) res)
          polling

-- `batches` are the entries of the calls of `SendLogBatch` that are being sent.
pub record System : Type 0 where
  pub client : ResilientClient
  pub cancelled : Bool
  pub workers : List Worker
  pub batches : List (List LogEntry)

-- `startWorkers`, each worker at the top of its loop.
unfoldable pub start_workers : ResilientClient → System
start_workers c = record {
  client = c;
  cancelled = false;
  workers = replicate (pos_part c.config.worker_count) polling;
  batches = [];
}

-- One step of the whole client, with the number of messages that it takes over from a caller: a send, the
-- start of a `SendLogBatch` that has something to send, an attempt of one or its end, in any way in which
-- `Retry` can end, a step of a worker, a renewed session, or one of the three steps of `Close`. Of a batch
-- it takes over the messages that the `BeforeSend` callback keeps.
pub data Move (g : Setting) (s : System) : ℕ → System → Type 0 where
  sends :
      (d : Draws) (m : Message)
      → Move g s
          (if s.client.closed then 0 else 1)
          (record s { client = (enqueue_entry d s.client m).0 })
  starts_batch :
      (clock : Clock) (messages : List Message) (entries : List LogEntry)
      → start_batch clock s.client messages ≡ Sending.sends entries
      → Move g s (length entries) (record s { batches = entries ∷ s.batches })
  tries :
      (before after : List (List LogEntry)) (entries : List LogEntry) (now : Time)
      (draws : ℕ → Option Str) (answer : List Part → Transport)
      → s.batches ≡ before ++ entries ∷ after
      → Move g s 0 (record s {
        client =
            (send_multipart g.primitives g.format g.build_text s.client now draws entries answer).0;
      })
  ends_batch :
      (before after : List (List LogEntry)) (entries : List LogEntry) (now : Time)
      (rounds : List (Round g.runtime)) (res : Option GoError)
      → s.batches ≡ before ++ entries ∷ after
      → retry g.runtime g.config rounds ≡ done res
      → Move g s 0 (record s {
        client = (finish_batch g.runtime.duration_text s.client now (length entries) res).0;
        batches = before ++ after;
      })
  works :
      (before after : List Worker) {w w' : Worker} {c' : ResilientClient}
      → s.workers ≡ before ++ w ∷ after
      → WorkerStep g s.cancelled s.client w c' w'
      → Move g s 0 (record s { client = c'; workers = before ++ w' ∷ after })
  renews :
      (e : Encryptor) (key_uuid : Str)
      → Move g s 0 (record s { client = record s.client { encryptor = e; key_uuid = key_uuid } })
  closes : Move g s 0 (record s { client = record s.client { closed = true } })
  cancels : Move g s 0 (record s { cancelled = true })
  closes_queue :
      (q : Queue QueueEntry)
      → close s.client.queue ≡ some q
      → Move g s 0 (record s { client = record s.client { queue = q } })

-- The systems that a start leads to, with the number of messages taken over until then.
pub data Reach (g : Setting) (start : System) : ℕ → System → Type 0 where
  here : Reach g start 0 start
  next : {n k : ℕ} {s t : System} → Reach g start n s → Move g s k t → Reach g start (n + k) t
