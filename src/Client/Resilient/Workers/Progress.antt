-- ===== src/Client/Resilient/Workers/Progress.antt =====
-- pkg/client/resilient_client.go: the workers and the entries in the queue, over any steps.
use logflux_go_sdk.Prelude.{
  ℕ, zero, suc, ◌+◌, ◌<◌, ◌≡◌, refl, sym, ap, ◌∙◌, ◌⊎◌, inl, inr, pos_part, Bool, true, false, List,
  [], ◌∷◌, ◌++◌, some, arith, length, length-append, replicate, length-replicate,
}
use logflux_go_sdk.Queue.{Queue, close, close_channel, close_with}
use logflux_go_sdk.Client.Resilient.State.{ResilientClient, QueueEntry}
use logflux_go_sdk.Client.Resilient.Workers.{
  Setting, Worker, polling, found_empty, blocked, draining, pausing, exited, holding, gathering,
  sending, System, Move, sends, starts_batch, tries, ends_batch, works, renews, closes, cancels,
  closes_queue, Reach, here, next, start_workers,
}
use logflux_go_sdk.Client.Resilient.Workers.Gains.{send_multipart-Same}
use logflux_go_sdk.Client.Resilient.Workers.Conservation.{sum_of, sum_of-append}
use logflux_go_sdk.Client.Resilient.Workers.Signals.{
  active, asleep, gone, in_drain, Live, enqueue_entry-Filled, Filled-Live, finish_batch_queue,
}
use logflux_go_sdk.Client.Resilient.Workers.Wakeup.{step-Live}

abbrev LiveSystem : ℕ → System → Type 0
LiveSystem k s =
    Live s.cancelled s.client.queue (sum_of active s.workers) (sum_of gone s.workers)
      (sum_of in_drain s.workers)
    × (length s.workers ≡ k)

close_lem :
    (q q' : Queue QueueEntry)
    → q.close_ch ≡ q.closed
    → close q ≡ some q'
    → (q'.items ≡ q.items)
      × (q'.not_empty ≡ q.not_empty)
      × (q'.closed ≡ true)
      × (q'.close_ch ≡ true)
unfolding close close_with close_channel
close_lem q q' c h = ground arith

close-Live :
    (cancelled : Bool) (q q' : Queue QueueEntry) (a b d : ℕ)
    → close q ≡ some q'
    → Live cancelled q a b d
    → Live cancelled q' a b d
close-Live cancelled q q' a b d h v =
    let (items, signal, shut, channel) = close_lem q q' v.channel h in
    record {
      woken = ground (arith, v.woken, ap length items, signal);
      left = ground (arith, v.left, ap length items, shut);
      drained_closed = inr shut;
      channel = channel ∙ sym shut;
    }

split-Live :
    (cancelled : Bool) (q : Queue QueueEntry) (ws before after : List Worker) (w : Worker)
    → ws ≡ before ++ w ∷ after
    → Live cancelled q (sum_of active ws) (sum_of gone ws) (sum_of in_drain ws)
    → Live cancelled q
        (active w + (sum_of active before + sum_of active after))
        (gone w + (sum_of gone before + sum_of gone after))
        (in_drain w + (sum_of in_drain before + sum_of in_drain after))
split-Live cancelled q ws before after w h v =
    rw
      (
        ← sum_of-append active before after w,
        ← sum_of-append gone before after w,
        ← sum_of-append in_drain before after w,
        ← h,
      )
      v

Move-Live :
    (g : Setting) (k : ℕ) {n : ℕ} {s t : System} → Move g s n t → LiveSystem k s → LiveSystem k t
Move-Live g k {s = s} (sends d m) (v, l) =
    (Filled-Live s.cancelled s.client.queue _ _ _ _ (enqueue_entry-Filled d s.client m) v, l)
Move-Live g k {s = s} (tries before after entries now draws answer h) (v, l) = (
  rw
      ((send_multipart-Same g.primitives g.format g.build_text s.client now draws entries
        answer).queue)
      v,
  l,
)
Move-Live g k (starts_batch clock messages entries h) b = b
Move-Live g k {s = s} (ends_batch before after entries now rounds res h e) (v, l) =
    (rw (finish_batch_queue g.runtime.duration_text s.client now (length entries) res) v, l)
Move-Live g k {s = s} (works before after {w} {w'} {c'} h step) (v, l) = (
  rw
      (
        sum_of-append active before after w',
        sum_of-append gone before after w',
        sum_of-append in_drain before after w',
      )
      (step-Live g s.cancelled s.client c' w w' _ _ _ step
        (split-Live s.cancelled s.client.queue s.workers before after w h v)),
  omega
      (arith, l, ap length h, length-append before (w' ∷ after), length-append before (w ∷ after)),
)
Move-Live g k (renews e key_uuid) b = b
Move-Live g k closes b = b
Move-Live g k cancels (v, l) = (
  record {
    woken = inl refl;
    left = inl refl;
    drained_closed = v.drained_closed;
    channel = v.channel;
  },
  l,
)
Move-Live g k {s = s} (closes_queue q h) (v, l) =
    (close-Live s.cancelled s.client.queue q _ _ _ h v, l)

Reach-Live :
    (g : Setting) (k : ℕ) {start s : System} {n : ℕ}
    → LiveSystem k start
    → Reach g start n s
    → LiveSystem k s
Reach-Live g k b here = b
Reach-Live g k b (next r m) = Move-Live g k m (Reach-Live g k b r)

all_counted :
    (ws : List Worker) → sum_of active ws + (sum_of asleep ws + sum_of gone ws) ≡ length ws
all_counted [] = refl
all_counted (polling ∷ ws) = omega (arith, all_counted ws)
all_counted (found_empty ∷ ws) = omega (arith, all_counted ws)
all_counted (blocked ∷ ws) = omega (arith, all_counted ws)
all_counted (draining ∷ ws) = omega (arith, all_counted ws)
all_counted (pausing ∷ ws) = omega (arith, all_counted ws)
all_counted (exited ∷ ws) = omega (arith, all_counted ws)
all_counted (holding e ∷ ws) = omega (arith, all_counted ws)
all_counted (gathering e ∷ ws) = omega (arith, all_counted ws)
all_counted (sending es ∷ ws) = omega (arith, all_counted ws)

all_polling :
    (k : ℕ)
    → (sum_of active (replicate k polling) ≡ k)
      × (sum_of gone (replicate k polling) ≡ 0)
      × (sum_of in_drain (replicate k polling) ≡ 0)
all_polling zero = (refl, refl, refl)
all_polling (suc k) =
    let (a, b, c) = all_polling k in (omega (arith, a), omega (arith, b), omega (arith, c))

start-Live :
    (c : ResilientClient)
    → c.queue.close_ch ≡ c.queue.closed
    → 0 < pos_part c.config.worker_count
    → LiveSystem (pos_part c.config.worker_count) (start_workers c)
unfolding start_workers
start-Live c h p =
    let (a, b, d) = all_polling (pos_part c.config.worker_count) in
    (
      record {
        woken = inr (inr (inr (omega (arith, a, p))));
        left = inr (inl b);
        drained_closed = inl d;
        channel = h;
      },
      length-replicate (pos_part c.config.worker_count) polling,
    )

-- In every order of steps, from a start with at least one worker and a queue whose `closeCh` is closed
-- exactly if it is: while the context is not cancelled and the queue holds an entry, some worker is on
-- its way to look into the queue, or the signal is set and some worker waits for it.
pub no_lost_wakeup :
    (g : Setting) (c : ResilientClient) (s : System) (n : ℕ)
    → c.queue.close_ch ≡ c.queue.closed
    → 0 < pos_part c.config.worker_count
    → Reach g (start_workers c) n s
    → s.cancelled ≡ false
    → 0 < length s.client.queue.items
    → (0 < sum_of active s.workers)
      ⊎ ((s.client.queue.not_empty ≡ true) × (0 < sum_of asleep s.workers))
no_lost_wakeup g c s n h p r x y =
    let (v, l) = Reach-Live g _ (start-Live c h p) r in
    ground (arith, v.woken, v.left, l, all_counted s.workers, p, x, y)
