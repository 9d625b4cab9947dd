-- ===== src/Client/Resilient/Workers/Shutdown.antt =====
-- pkg/client/resilient_client.go: what is left for the workers once `Close` has closed the queue, for
-- which its `wg.Wait` waits.
use logflux_go_sdk.Prelude.{
  ℕ, ◌+◌, ◌*◌, ◌≤◌, ◌≡◌, refl, ap, ◌∙◌, Bool, true, false, List, some, arith, length,
}
use logflux_go_sdk.Queue.{Queue, dequeue, close}
use logflux_go_sdk.Client.Resilient.State.{ResilientClient, QueueEntry}
use logflux_go_sdk.Client.Resilient.Workers.{
  Setting, Worker, polling, found_empty, blocked, draining, pausing, exited, holding, gathering,
  sending, WorkerStep, found, missed, stops, waits, sees_cancel, sees_close, sees_entry, drains,
  drained, limited, unlimited, paused, pause_cancelled, gathers, attempts, delivers, System, Move,
  sends, starts_batch, tries, ends_batch, works, renews, closes, cancels, closes_queue,
}
use logflux_go_sdk.Client.Resilient.Workers.Gains.{send_multipart-Same}
use logflux_go_sdk.Client.Resilient.Workers.Conservation.{
  sum_of, sum_of-append, dequeue-some, dequeue-none,
}
use logflux_go_sdk.Client.Resilient.Workers.Signals.{
  Filled, kept, put, Fewer, re_enqueue-Filled, enqueue_entry-Filled, dequeue-Fewer, gather-Fewer,
  deliver_queue, finish_batch_queue,
}

-- The steps that a worker can still take without an entry, a signal or another attempt of a delivery.
abbrev pub rank : Worker → ℕ
rank exited = 0
rank draining = 1
rank blocked = 2
rank found_empty = 3
rank polling = 4
rank pausing = 5
rank (sending entries) = 5
rank (gathering e) = 6
rank (holding e) = 7

abbrev pub signal_steps : Bool → ℕ
signal_steps true = 3
signal_steps false = 0

-- What a queue adds to the steps: an entry takes at most 8, the signal wakes a worker once.
abbrev pub queue_steps : Queue QueueEntry → ℕ
queue_steps q = signal_steps q.not_empty + 8 * length q.items

abbrev pub steps_left : System → ℕ
steps_left s = queue_steps s.client.queue + sum_of rank s.workers

-- An attempt of a delivery leaves its worker where it is: the retry loop bounds those.
abbrev pub moves_on :
    {g : Setting} {k : Bool} {c c' : ResilientClient} {w w' : Worker} → WorkerStep g k c w c' w' → ℕ
moves_on (found q e h) = 1
moves_on (missed q h) = 1
moves_on (stops h) = 1
moves_on (waits h) = 1
moves_on (sees_cancel h) = 1
moves_on (sees_close h) = 1
moves_on (sees_entry h) = 1
moves_on (drains q e h) = 1
moves_on (drained q h) = 1
moves_on (limited e now h) = 1
moves_on (unlimited e now h) = 1
moves_on paused = 1
moves_on (pause_cancelled h) = 1
moves_on (gathers e) = 1
moves_on (attempts entries now draws answer) = 0
moves_on (delivers entries now rounds res h) = 1

abbrev pub counted : {g : Setting} {s : System} {n : ℕ} {t : System} → Move g s n t → ℕ
counted (sends d m) = 0
counted (starts_batch clock messages entries h) = 0
counted (tries before after entries now draws answer h) = 0
counted (ends_batch before after entries now rounds res h e) = 0
counted (works before after h step) = moves_on step
counted (renews e key_uuid) = 0
counted closes = 0
counted cancels = 0
counted (closes_queue q h) = 0

-- Any steps of the whole client, `n` of them of workers and no attempts.
pub data Run (g : Setting) (start : System) : ℕ → System → Type 0 where
  begun : Run g start 0 start
  moved :
      {n k : ℕ} {s t : System}
      → Run g start n s
      → (m : Move g s k t) → Run g start (counted m + n) t

closed_kept : (q q' : Queue QueueEntry) → q.closed ≡ true → Filled q q' → q' ≡ q
closed_kept q q' c (kept h) = h
closed_kept q q' c (put h s k l) = ground (arith, h, c)

-- A queue with no more steps in it than another, and closed like it.
record Smaller (q q' : Queue QueueEntry) (n : ℕ) : Type 0 where
  steps : queue_steps q' + n ≤ queue_steps q
  still_closed : q'.closed ≡ q.closed
  same_channel : q'.close_ch ≡ q.close_ch

same-Smaller : (q q' : Queue QueueEntry) → q' ≡ q → Smaller q q' 0
same-Smaller q q' h =
    rw h (record { steps = omega arith; still_closed = refl; same_channel = refl })

Fewer-Smaller :
    (q q' : Queue QueueEntry) (n : ℕ)
    → length q'.items + n ≤ length q.items
    → Fewer q q'
    → Smaller q q' (8 * n)
Fewer-Smaller q q' n h f = record {
  steps = omega (arith, h, ap signal_steps f.same_signal);
  still_closed = f.same_closed;
  same_channel = f.same_channel;
}

taken : (q q' : Queue QueueEntry) (e : QueueEntry) → dequeue q ≡ (q', some e) → Smaller q q' 8
taken q q' e h =
    Fewer-Smaller q q' 1 (omega (arith, dequeue-some q q' e q.items refl h))
      (dequeue-Fewer q q' e q.items refl h)

module _ (g : Setting) where
  step-Smaller :
      {k : Bool} {c c' : ResilientClient} {w w' : Worker} (step : WorkerStep g k c w c' w')
      → c.queue.closed ≡ true
      → (n : ℕ) × Smaller c.queue c'.queue n × (moves_on step + rank w' ≤ n + rank w)
  step-Smaller {c = c} (found q e h) v = (8, taken c.queue q e h, omega arith)
  step-Smaller {c = c} (missed q h) v =
      (0, same-Smaller c.queue q (dequeue-none c.queue q c.queue.items refl h).0, omega arith)
  step-Smaller {c = c} (stops h) v = (0, same-Smaller c.queue c.queue refl, omega arith)
  step-Smaller {c = c} (waits h) v = (0, same-Smaller c.queue c.queue refl, omega arith)
  step-Smaller {c = c} (sees_cancel h) v = (0, same-Smaller c.queue c.queue refl, omega arith)
  step-Smaller {c = c} (sees_close h) v = (0, same-Smaller c.queue c.queue refl, omega arith)
  step-Smaller {c = c} (sees_entry h) v = (
    3,
    record { steps = omega (arith, ap signal_steps h); still_closed = refl; same_channel = refl },
    omega arith,
  )
  step-Smaller {c = c} (drains q e h) v = (8, taken c.queue q e h, omega arith)
  step-Smaller {c = c} (drained q h) v =
      (0, same-Smaller c.queue q (dequeue-none c.queue q c.queue.items refl h).0, omega arith)
  step-Smaller {c = c} (limited e now h) v =
      (0, same-Smaller c.queue _ (closed_kept c.queue _ v (re_enqueue-Filled c e)), omega arith)
  step-Smaller {c = c} (unlimited e now h) v = (0, same-Smaller c.queue c.queue refl, omega arith)
  step-Smaller {c = c} paused v = (0, same-Smaller c.queue c.queue refl, omega arith)
  step-Smaller {c = c} (pause_cancelled h) v = (0, same-Smaller c.queue c.queue refl, omega arith)
  step-Smaller {c = c} (gathers e) v =
      let f = gather-Fewer c e in
      (0, Fewer-Smaller c.queue _ 0 (omega (arith, f.shorter)) f, omega arith)
  step-Smaller {c = c} (attempts entries now draws answer) v = (
    0,
    same-Smaller c.queue _
        ((send_multipart-Same g.primitives g.format g.build_text c now draws entries answer).queue),
    omega arith,
  )
  step-Smaller {c = c} (delivers entries now rounds res h) v = (
    0,
    same-Smaller c.queue _ (deliver_queue g.runtime.duration_text c now (length entries) res),
    omega arith,
  )

  abbrev pub IsShut : System → Type 0
  IsShut s = (s.client.queue.closed ≡ true) × (s.client.queue.close_ch ≡ true)

  kept_queue :
      (q q' : Queue QueueEntry) (ws : List Worker)
      → q' ≡ q
      → (q.closed ≡ true) × (q.close_ch ≡ true)
      → (0 + (queue_steps q' + sum_of rank ws) ≤ queue_steps q + sum_of rank ws)
        × ((q'.closed ≡ true) × (q'.close_ch ≡ true))
  kept_queue q q' ws h v = (
    omega (arith, ap queue_steps h),
    (
      ap (λ (x : Queue QueueEntry). x.closed) h ∙ v.0,
      ap (λ (x : Queue QueueEntry). x.close_ch) h ∙ v.1,
    ),
  )

  closed_again : (q q' : Queue QueueEntry) → q.closed ≡ true → close q ≡ some q' → q' ≡ q
  unfolding close
  closed_again q q' h e = ground arith

  -- A move over a closed queue takes from the steps that are left what it counts.
  Move-steps :
      {s : System} {n : ℕ} {t : System} (m : Move g s n t)
      → IsShut s
      → (counted m + steps_left t ≤ steps_left s) × IsShut t
  Move-steps {s = s} (sends d m) v =
      kept_queue s.client.queue _ s.workers
        (closed_kept s.client.queue _ v.0 (enqueue_entry-Filled d s.client m)) v
  Move-steps {s = s} (tries before after entries now draws answer h) v =
      kept_queue s.client.queue _ s.workers
        ((send_multipart-Same g.primitives g.format g.build_text s.client now draws entries
          answer).queue)
        v
  Move-steps (starts_batch clock messages entries h) v = (omega arith, v)
  Move-steps {s = s} (ends_batch before after entries now rounds res h e) v =
      kept_queue s.client.queue _ s.workers
        (finish_batch_queue g.runtime.duration_text s.client now (length entries) res) v
  Move-steps {s = s} (works before after {w} {w'} {c'} h step) v =
      let (n, smaller, ranks) = step-Smaller step v.0 in
      (
        omega (
          arith,
          smaller.steps,
          ranks,
          ap (sum_of rank) h,
          sum_of-append rank before after w,
          sum_of-append rank before after w',
        ),
        (smaller.still_closed ∙ v.0, smaller.same_channel ∙ v.1),
      )
  Move-steps (renews e key_uuid) v = (omega arith, v)
  Move-steps closes v = (omega arith, v)
  Move-steps cancels v = (omega arith, v)
  Move-steps {s = s} (closes_queue q h) v =
      kept_queue s.client.queue _ s.workers (closed_again s.client.queue q v.0 h) v

  pub Run-steps :
      {s : System} {n : ℕ} {t : System}
      → Run g s n t
      → IsShut s
      → (n + steps_left t ≤ steps_left s) × IsShut t
  Run-steps begun v = (omega arith, v)
  Run-steps (moved r m) v =
      let (bound, shut) = Run-steps r v in
      let (step, shut') = Move-steps m shut in (omega (arith, bound, step), shut')
