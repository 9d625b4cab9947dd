-- ===== src/Client/Resilient/Workers/Whereabouts.antt =====
-- pkg/client/resilient_client.go: where each entry is, over any steps.
use logflux_go_sdk.Prelude.{
  ℕ, zero, suc, ◌+◌, ◌%◌, ◌^◌, ◌≡◌, refl, ap, inl, inr, ℤ, pos_part, List, [], ◌∷◌, ◌++◌, Option,
  none, some, arith, Bool-cases, Str, length, length-append, drop-append, drop_all, replicate,
}
use logflux_go_sdk.Models.{Time, LogEntry}
use logflux_go_sdk.Queue.{Queue}
use logflux_go_sdk.Queue.Fifo.{enqueue_accepted}
use logflux_go_sdk.Retry.Errors.{GoError}
use logflux_go_sdk.Client.Resilient.State.{
  ResilientClient, QueueEntry, SendError, record_drop, record_error,
}
use logflux_go_sdk.Client.Resilient.Enqueue.{Draws, Message, enqueue_entry, queue_entry, refuse}
use logflux_go_sdk.Client.Resilient.Sending.{finish_batch}
use logflux_go_sdk.Client.Resilient.Accounting.{
  Fate, queued, dropped, enqueue_entry-Fate, enqueue_entry_closed,
}
use logflux_go_sdk.Client.Resilient.Workers.{
  Setting, polling, System, Move, sends, starts_batch, tries, ends_batch, works, renews, closes,
  cancels, closes_queue, Reach, here, next, start_workers,
}
use logflux_go_sdk.Client.Resilient.Workers.Gains.{total, send_multipart-Same}
use logflux_go_sdk.Client.Resilient.Workers.Conservation.{
  sum_of, sum_of-append, sum_of-without, Balanced, Reach-Balanced, start-Balanced, items-close,
}
use logflux_go_sdk.Client.Resilient.Workers.Flow.{
  Flow, still, takes, ended, entries_of, newly_queued, flow, history, in_hand,
}
use logflux_go_sdk.Client.Resilient.Workers.Passing.{
  queued_weight, Passes, weight-append, same-Passes, step-Passes,
}

module _ (weight : LogEntry → ℕ) where
  -- What came in weighs as much as what is in the queue, in the hands of the workers and of the calls of
  -- `SendLogBatch`, what was sent and what was dropped, together.
  abbrev pub Weighs : System → Flow → Type 0
  Weighs s f =
      sum_of weight f.taken
      ≡ queued_weight weight s.client.queue
        + sum_of (λ w. sum_of weight (in_hand w)) s.workers
        + sum_of (sum_of weight) s.batches
        + sum_of weight f.sent
        + sum_of weight f.dropped

  abbrev Placed : System → Flow → Type 0
  Placed s f = Weighs s f × (s.client.total_sent % 2 ^ 64 ≡ length f.sent % 2 ^ 64)

  -- The entry that a send adds stands behind the others.
  Fate-Passes :
      (d : Draws) (c : ResilientClient) (r : ResilientClient × Option SendError)
      → Fate d c r
      → Passes weight c r.0 0 0 (takes (newly_queued c r.0))
  unfolding record_drop
  Fate-Passes d c r (queued entry h e) =
      let items = (enqueue_accepted c.queue (queue_entry d entry) h).0 in
      let behind =
        drop-append (length c.queue.items) c.queue.items (queue_entry d entry ∷ []) (omega arith) in
      let none_left = drop_all (length c.queue.items) c.queue.items (omega arith) in
      rw (e, items, behind, none_left)
        (record {
          weighs = omega (
            arith,
            ap (λ es. sum_of weight (entries_of es)) items,
            weight-append weight c.queue.items (queue_entry d entry ∷ []),
          );
          counted = omega arith;
        })
  Fate-Passes d c r (dropped reason error e) =
      let none_left = drop_all (length c.queue.items) c.queue.items (omega arith) in
      rw (e, none_left) (record { weighs = omega arith; counted = omega arith })

  sends-Passes :
      (d : Draws) (c : ResilientClient) (m : Message)
      → Passes weight c (enqueue_entry d c m).0 0 0 (takes (newly_queued c (enqueue_entry d c m).0))
  unfolding refuse
  sends-Passes d c m = elim (Bool-cases c.closed) [
    | inl h ↦
        rw
          (
            enqueue_entry_closed d c m h,
            drop_all (length c.queue.items) c.queue.items (omega arith),
          )
          (record { weighs = omega arith; counted = omega arith })
    | inr h ↦ Fate-Passes d c _ (enqueue_entry-Fate d c m h)
  ]

  finish_batch-Passes :
      (duration_text : ℤ → Str) (c : ResilientClient) (now : Time) (entries : List LogEntry)
      (res : Option GoError)
      → Passes weight c
          (finish_batch duration_text c now (length entries) res).0
          (sum_of weight entries)
          0
          (ended entries res)
  unfolding finish_batch refuse record_error record_drop
  finish_batch-Passes duration_text c now entries none = record {
    weighs = omega arith;
    counted = omega arith;
  }
  finish_batch-Passes duration_text c now entries (some e) = record {
    weighs = omega arith;
    counted = omega arith;
  }

  abbrev joined : Flow → Flow → Flow
  joined past now = record {
    taken = past.taken ++ now.taken;
    sent = past.sent ++ now.sent;
    dropped = past.dropped ++ now.dropped;
  }

  -- A step of one holder, whose entries weigh `before` and `after` it, next to those of the others.
  Passes-Placed :
      (s t : System) (past now : Flow) (before after : ℕ)
      → Passes weight s.client t.client before after now
      → sum_of (λ w. sum_of weight (in_hand w)) t.workers
          + sum_of (sum_of weight) t.batches
          + before
        ≡ sum_of (λ w. sum_of weight (in_hand w)) s.workers
          + sum_of (sum_of weight) s.batches
          + after
      → Placed s past
      → Placed t (joined past now)
  Passes-Placed s t past now before after p h (weighs, counted) = (
    omega (
      arith,
      weighs,
      p.weighs,
      h,
      sum_of-without weight past.taken now.taken,
      sum_of-without weight past.sent now.sent,
      sum_of-without weight past.dropped now.dropped,
    ),
    omega (arith, counted, p.counted, length-append past.sent now.sent),
  )

  module _ (g : Setting) where
    Move-Placed :
        {n : ℕ} {s t : System} (m : Move g s n t) (past : Flow)
        → Placed s past
        → Placed t (joined past (flow m))
    Move-Placed {s = s} {t} (sends d m) past =
        Passes-Placed s t past _ 0 0 (sends-Passes d s.client m) refl
    Move-Placed {s = s} {t} (starts_batch clock messages entries h) past =
        Passes-Placed s t past _ 0 (sum_of weight entries)
          (record { weighs = omega arith; counted = omega arith }) (omega arith)
    Move-Placed {s = s} {t} (tries before after entries now draws answer h) past =
        let e =
          send_multipart-Same g.primitives g.format g.build_text s.client now draws entries
            answer in
        Passes-Placed s t past _ 0 0
          (same-Passes weight s.client _ 0 (ap (λ (x : Queue QueueEntry). x.items) e.queue) e.sent)
          refl
    Move-Placed {s = s} {t} (ends_batch before after entries now rounds res h e) past =
        Passes-Placed s t past _ (sum_of weight entries) 0
          (finish_batch-Passes g.runtime.duration_text s.client now entries res)
          (omega (
            arith,
            ap (sum_of (sum_of weight)) h,
            sum_of-append (sum_of weight) before after entries,
            sum_of-without (sum_of weight) before after,
          ))
    Move-Placed {s = s} {t} (works before after {w} {w'} h step) past =
        Passes-Placed s t past _ (sum_of weight (in_hand w)) (sum_of weight (in_hand w'))
          (step-Passes weight step)
          (omega (
            arith,
            ap (sum_of (λ w. sum_of weight (in_hand w))) h,
            sum_of-append (λ w. sum_of weight (in_hand w)) before after w,
            sum_of-append (λ w. sum_of weight (in_hand w)) before after w',
          ))
    Move-Placed {s = s} {t} (renews e key_uuid) past =
        Passes-Placed s t past _ 0 0 (same-Passes weight s.client _ 0 refl refl) refl
    Move-Placed {s = s} {t} closes past =
        Passes-Placed s t past _ 0 0 (same-Passes weight s.client _ 0 refl refl) refl
    Move-Placed {s = s} {t} cancels past =
        Passes-Placed s t past _ 0 0 (same-Passes weight s.client _ 0 refl refl) refl
    Move-Placed {s = s} {t} (closes_queue q h) past =
        Passes-Placed s t past _ 0 0
          (same-Passes weight s.client _ 0 (items-close g s.client.queue q h) refl) refl

    Reach-Placed :
        {start s : System} {n : ℕ} (r : Reach g start n s)
        → Placed start still
        → Placed s (history r)
    Reach-Placed here p = p
    Reach-Placed (next r m) p = Move-Placed m (history r) (Reach-Placed r p)

    idle_hands : (k : ℕ) → sum_of (λ w. sum_of weight (in_hand w)) (replicate k polling) ≡ 0
    idle_hands zero = refl
    idle_hands (suc k) = omega (arith, idle_hands k)

    weightless : (xs : List QueueEntry) → length xs ≡ 0 → sum_of weight (entries_of xs) ≡ 0
    weightless [] h = refl
    weightless (x ∷ xs) h = absurd (omega arith)

    start-Placed : (c : ResilientClient) → total c ≡ 0 → Placed (start_workers c) still
    unfolding start_workers
    start-Placed c t = (
      omega (
        arith,
        idle_hands (pos_part c.config.worker_count),
        weightless c.queue.items (omega (arith, t)),
      ),
      omega (arith, t),
    )

-- Of a client that starts with an empty queue and counters at 0, in every order of steps of the
-- callers, the workers, `SendLogBatch`, `RenewSession` and `Close`. The entries that a send added
-- to the queue or that `SendLogBatch` set out to send are, each as often as it came in and no
-- other, in the queue, in the hands of a worker or of a `SendLogBatch`, sent by a delivery that
-- ended without an error, or dropped by a delivery that ended with one or by a full or closed queue
-- that did not take them back: whatever the entries weigh, both sides weigh the same. The client
-- counts as sent the entries that were, and of the messages taken over, also those refused at once,
-- each is in the queue, in hand, or counted as sent or as dropped; both up to the wrap-around of
-- the int64 counters.
pub nothing_lost :
    (g : Setting) (c : ResilientClient) (s : System) (n : ℕ)
    → total c ≡ 0
    → (r : Reach g (start_workers c) n s)
    → ((weight : LogEntry → ℕ) → Weighs weight s (history r))
      × (s.client.total_sent % 2 ^ 64 ≡ length (history r).sent % 2 ^ 64)
      × Balanced n s
nothing_lost g c s n t r = (
  λ weight. (Reach-Placed weight g r (start-Placed weight g c t)).0,
  (Reach-Placed (λ entry. 1) g r (start-Placed (λ entry. 1) g c t)).1,
  Reach-Balanced g (start-Balanced g c t) r,
)
