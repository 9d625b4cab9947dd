-- ===== src/Client/Resilient/Workers/Signals.antt =====
-- pkg/queue/queue.go with pkg/client/resilient_client.go: the signal of the queue, and what the calls on
-- the queue do to it.
use logflux_go_sdk.Prelude.{
  ℤ, Str, ℕ, ◌+◌, ◌-◌, ◌≤◌, ◌<◌, ◌≡◌, refl, sym, ap, ◌∙◌, subst, ◌⊎◌, inl, inr, ltb_ℤ, pos,
  pos_part, Bool, true, false, List, [], ◌∷◌, Option, none, some, arith, Bool-cases, length,
  length-drop,
}
use logflux_go_sdk.Queue.{Queue, enqueue, dequeue, dequeue_batch}
use logflux_go_sdk.Queue.Fifo.{enqueue_refused, enqueue_accepted, dequeue_front, dequeue_batch_lem}
use logflux_go_sdk.Models.{Time}
use logflux_go_sdk.Retry.Errors.{GoError}
use logflux_go_sdk.Client.Resilient.Sending.{handle_send_error, finish_batch}
use logflux_go_sdk.Client.Resilient.State.{
  ResilientClient, QueueEntry, SendError, record_drop, record_error,
}
use logflux_go_sdk.Client.Resilient.Enqueue.{Draws, Message, enqueue_entry, queue_entry, refuse}
use logflux_go_sdk.Client.Resilient.Accounting.{
  Fate, queued, dropped, enqueue_entry-Fate, enqueue_entry_closed,
}
use logflux_go_sdk.Client.Resilient.Workers.{
  Worker, found_empty, blocked, draining, exited, gather, deliver, re_enqueue, re_enqueued,
}
use logflux_go_sdk.Client.Resilient.Workers.Conservation.{dequeue-some}

-- A worker that will look into the queue again without a signal.
abbrev pub active : Worker → ℕ
active found_empty = 0
active blocked = 0
active exited = 0
active _ = 1

-- A worker that waits for a signal, or is about to.
abbrev pub asleep : Worker → ℕ
asleep found_empty = 1
asleep blocked = 1
asleep _ = 0

abbrev pub gone : Worker → ℕ
gone exited = 1
gone _ = 0

abbrev pub in_drain : Worker → ℕ
in_drain draining = 1
in_drain _ = 0

-- With the numbers of workers that are active, gone and draining: entries in the queue of a client that
-- is not cancelled have the signal set or an active worker; workers leave only a closed, empty queue;
-- they drain only a closed one.
pub record Live (cancelled : Bool) (q : Queue QueueEntry) (awake_count gone_count drain_count : ℕ)
    : Type 0 where
  pub woken : (cancelled ≡ true) ⊎ (length q.items ≡ 0) ⊎ (q.not_empty ≡ true) ⊎ (0 < awake_count)
  pub left : (cancelled ≡ true) ⊎ (gone_count ≡ 0) ⊎ ((q.closed ≡ true) × (length q.items ≡ 0))
  pub drained_closed : (drain_count ≡ 0) ⊎ (q.closed ≡ true)
  pub channel : q.close_ch ≡ q.closed

-- What filling does to a queue.
pub data Filled (q q' : Queue QueueEntry) : Type 0 where
  kept : q' ≡ q → Filled q q'
  put :
      q.closed ≡ false
      → q'.not_empty ≡ true
      → q'.closed ≡ q.closed
      → q'.close_ch ≡ q.close_ch
      → Filled q q'

enqueue-Filled :
    (q q' : Queue QueueEntry) (e : QueueEntry) (b : Bool) → enqueue q e ≡ (q', b) → Filled q q'
enqueue-Filled q q' e true h =
    let same : (enqueue q e).0 ≡ q' = ap (λ (x : Queue QueueEntry × Bool). x.0) h in
    let (_, signal, shut, channel, open_before) =
      enqueue_accepted q e (ap (λ (x : Queue QueueEntry × Bool). x.1) h) in
    subst (Filled q) same (put open_before signal shut channel)
enqueue-Filled q q' e false h = kept (
    sym (ap (λ (x : Queue QueueEntry × Bool). x.0) h)
    ∙ enqueue_refused q e (ap (λ (x : Queue QueueEntry × Bool). x.1) h))

re_enqueued-Filled :
    (c : ResilientClient) (e : QueueEntry) (q : Queue QueueEntry) (b : Bool)
    → enqueue c.queue e ≡ (q, b)
    → Filled c.queue (re_enqueued c (q, b)).queue
unfolding re_enqueued record_drop
re_enqueued-Filled c e q true h = enqueue-Filled c.queue q e true h
re_enqueued-Filled c e q false h = enqueue-Filled c.queue q e false h

pub re_enqueue-Filled :
    (c : ResilientClient) (e : QueueEntry) → Filled c.queue (re_enqueue c e).queue
unfolding re_enqueue
re_enqueue-Filled c e = re_enqueued-Filled c e _ _ refl

Fate-Filled :
    (d : Draws) (c : ResilientClient) (r : ResilientClient × Option SendError)
    → Fate d c r
    → Filled c.queue r.0.queue
unfolding record_drop
Fate-Filled d c r (queued entry h e) = rw e (enqueue-Filled c.queue _ (queue_entry d entry) _ refl)
Fate-Filled d c r (dropped reason error e) = rw e (kept refl)

pub enqueue_entry-Filled :
    (d : Draws) (c : ResilientClient) (m : Message) → Filled c.queue (enqueue_entry d c m).0.queue
unfolding refuse
enqueue_entry-Filled d c m = elim (Bool-cases c.closed) [
  | inl h ↦ rw (enqueue_entry_closed d c m h) (kept refl)
  | inr h ↦ Fate-Filled d c _ (enqueue_entry-Fate d c m h)
]

pub Filled-Live :
    (cancelled : Bool) (q q' : Queue QueueEntry) (a b d : ℕ)
    → Filled q q'
    → Live cancelled q a b d
    → Live cancelled q' a b d
Filled-Live cancelled q q' a b d (kept h) v = subst (λ x. Live cancelled x a b d) (sym h) v
Filled-Live cancelled q q' a b d (put h s k l) v = record {
  woken = inr (inr (inl s));
  left = ground (arith, v.left);
  drained_closed = ground (arith, v.drained_closed);
  channel = l ∙ v.channel ∙ sym k;
}

-- What taking out does to a queue.
pub record Fewer (q q' : Queue QueueEntry) : Type 0 where
  pub shorter : length q'.items ≤ length q.items
  pub same_signal : q'.not_empty ≡ q.not_empty
  pub same_closed : q'.closed ≡ q.closed
  pub same_channel : q'.close_ch ≡ q.close_ch

pub dequeue-Fewer :
    (q q' : Queue QueueEntry) (e : QueueEntry) (xs : List QueueEntry)
    → q.items ≡ xs
    → dequeue q ≡ (q', some e)
    → Fewer q q'
dequeue-Fewer q q' e [] h k = absurd (omega (arith, dequeue-some q q' e [] h k, ap length h))
dequeue-Fewer q q' e (x ∷ xs) h k =
    let same : (dequeue q).0 ≡ q' = ap (λ (x : Queue QueueEntry × Option QueueEntry). x.0) k in
    let (_, _, shut, signal, channel) = dequeue_front q x xs h in
    record {
      shorter = omega (arith, dequeue-some q q' e (x ∷ xs) h k);
      same_signal = ap (λ (x : Queue QueueEntry). x.not_empty) (sym same) ∙ signal;
      same_closed = ap (λ (x : Queue QueueEntry). x.closed) (sym same) ∙ shut;
      same_channel = ap (λ (x : Queue QueueEntry). x.close_ch) (sym same) ∙ channel;
    }

dequeue_batch-Fewer : (q : Queue QueueEntry) (n : ℕ) → Fewer q (dequeue_batch q n).0
dequeue_batch-Fewer q n =
    let (left, _, shut, signal, channel) = dequeue_batch_lem q n in
    record {
      shorter = omega (arith, ap length left, length-drop n q.items);
      same_signal = signal;
      same_closed = shut;
      same_channel = channel;
    }

pub gather-Fewer : (c : ResilientClient) (e : QueueEntry) → Fewer c.queue (gather c e).0.queue
unfolding gather
gather-Fewer c e = elim (Bool-cases (ltb_ℤ (pos 1) c.config.batch_size)) [
  | inl h ↦ rw h (dequeue_batch-Fewer c.queue (pos_part c.config.batch_size - 1))
  | inr h ↦ rw h (record {
    shorter = omega arith;
    same_signal = refl;
    same_closed = refl;
    same_channel = refl;
  })
]

-- An active worker takes entries out and stays active.
pub Fewer-Live :
    (cancelled : Bool) (q q' : Queue QueueEntry) (a b d : ℕ)
    → Fewer q q'
    → Live cancelled q (1 + a) b d
    → Live cancelled q' (1 + a) b d
Fewer-Live cancelled q q' a b d f v = record {
  woken = inr (inr (inr (omega arith)));
  left = ground (arith, v.left, f.shorter, f.same_closed);
  drained_closed = ground (arith, v.drained_closed, f.same_closed);
  channel = f.same_channel ∙ v.channel ∙ sym f.same_closed;
}

pub deliver_queue :
    (duration_text : ℤ → Str) (c : ResilientClient) (now : Time) (n : ℕ) (res : Option GoError)
    → (deliver duration_text c now n res).queue ≡ c.queue
unfolding deliver handle_send_error record_error record_drop
deliver_queue duration_text c now n none = refl
deliver_queue duration_text c now n (some e) = refl

pub finish_batch_queue :
    (duration_text : ℤ → Str) (c : ResilientClient) (now : Time) (n : ℕ) (res : Option GoError)
    → (finish_batch duration_text c now n res).0.queue ≡ c.queue
unfolding finish_batch refuse record_error record_drop
finish_batch_queue duration_text c now n none = refl
finish_batch_queue duration_text c now n (some e) = refl
