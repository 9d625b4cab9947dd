-- ===== src/Client/Resilient/Workers/Conservation.antt =====
-- pkg/client/resilient_client.go: how many entries the client answers for, over any steps.
use logflux_go_sdk.Prelude.{
  ℕ, suc, ◌+◌, ◌%◌, ◌^◌, ◌≡◌, refl, sym, ap, ◌∙◌, inl, inr, Bool, List, [], ◌∷◌, ◌++◌, Option, none,
  some, arith, if◌then◌else◌, Bool-cases, length, replicate, zero, pos_part,
}
use logflux_go_sdk.Queue.{Queue, dequeue, close, close_channel, close_with}
use logflux_go_sdk.Queue.Fifo.{dequeue_empty, dequeue_front}
use logflux_go_sdk.Client.Resilient.State.{ResilientClient, QueueEntry}
use logflux_go_sdk.Client.Resilient.Enqueue.{Draws, Message, enqueue_entry, refuse}
use logflux_go_sdk.Client.Resilient.Accounting.{enqueue_entry_closed}
use logflux_go_sdk.Client.Resilient.Workers.{
  Setting, Worker, polling, holding, gathering, sending, WorkerStep, found, missed, stops, waits,
  sees_cancel, sees_close, sees_entry, drains, drained, limited, unlimited, paused, pause_cancelled,
  gathers, attempts, delivers, System, Move, sends, starts_batch, tries, ends_batch, works, renews,
  closes, cancels, closes_queue, Reach, here, next, start_workers,
}
use logflux_go_sdk.Client.Resilient.Workers.Gains.{
  total, Gains, enqueue_entry-Gains, re_enqueue-Gains, gather-total, deliver-Gains,
  finish_batch-Gains, send_multipart-Same,
}

-- The entries that a worker has in hand.
abbrev pub held : Worker → ℕ
held (holding e) = 1
held (gathering e) = 1
held (sending entries) = length entries
held w = 0

abbrev pub sum_of {ℓ} : {A : Type ℓ} → (A → ℕ) → List A → ℕ
sum_of f [] = 0
sum_of f (x ∷ xs) = f x + sum_of f xs

pub sum_of-append {ℓ} :
    {A : Type ℓ} (f : A → ℕ) (before after : List A) (w : A)
    → sum_of f (before ++ w ∷ after) ≡ f w + (sum_of f before + sum_of f after)
sum_of-append f [] after w = omega arith
sum_of-append f (x ∷ xs) after w = omega (arith, sum_of-append f xs after w)

pub sum_of-without {ℓ} :
    {A : Type ℓ} (f : A → ℕ) (before after : List A)
    → sum_of f (before ++ after) ≡ sum_of f before + sum_of f after
sum_of-without f [] after = omega arith
sum_of-without f (x ∷ xs) after = omega (arith, sum_of-without f xs after)

-- `n` messages were taken over, and as many entries are in the queue, in the hands of
-- a worker or of a `SendLogBatch`, sent or dropped.
abbrev pub Balanced : ℕ → System → Type 0
Balanced n s =
    n % 2 ^ 64 ≡ (total s.client + (sum_of held s.workers + sum_of length s.batches)) % 2 ^ 64

pub dequeue-some :
    (q q' : Queue QueueEntry) (e : QueueEntry) (xs : List QueueEntry)
    → q.items ≡ xs
    → dequeue q ≡ (q', some e)
    → length q.items ≡ length q'.items + 1
dequeue-some q q' e [] h k = ground (arith, dequeue_empty q h)
dequeue-some q q' e (x ∷ xs) h k = ground (arith, dequeue_front q x xs h)

pub dequeue-none :
    (q q' : Queue QueueEntry) (xs : List QueueEntry)
    → q.items ≡ xs
    → dequeue q ≡ (q', none)
    → (q' ≡ q) × (q.items ≡ [])
dequeue-none q q' [] h k =
    (ap (λ (x : Queue QueueEntry × Option QueueEntry). x.0) (sym k ∙ dequeue_empty q h), h)
dequeue-none q q' (x ∷ xs) h k = ground (arith, dequeue_front q x xs h)

module _ (g : Setting) where
  step-Balanced :
      {cancelled : Bool} {c c' : ResilientClient} {w w' : Worker}
      → WorkerStep g cancelled c w c' w'
      → (total c' + held w') % 2 ^ 64 ≡ (total c + held w) % 2 ^ 64
  step-Balanced {c = c} (found q e h) = omega (arith, dequeue-some c.queue q e c.queue.items refl h)
  step-Balanced {c = c} (missed q h) =
      let (same, _) = dequeue-none c.queue q c.queue.items refl h in rw same
  step-Balanced (stops h) = refl
  step-Balanced (waits h) = refl
  step-Balanced (sees_cancel h) = refl
  step-Balanced (sees_close h) = refl
  step-Balanced (sees_entry h) = refl
  step-Balanced {c = c} (drains q e h) =
      omega (arith, dequeue-some c.queue q e c.queue.items refl h)
  step-Balanced {c = c} (drained q h) =
      let (same, _) = dequeue-none c.queue q c.queue.items refl h in rw same
  step-Balanced {c = c} (limited e now h) = omega (arith, re_enqueue-Gains c e)
  step-Balanced (unlimited e now h) = refl
  step-Balanced paused = refl
  step-Balanced (pause_cancelled h) = refl
  step-Balanced {c = c} (gathers e) = omega (arith, gather-total c e)
  step-Balanced {c = c} (attempts entries now draws answer) =
      let s = send_multipart-Same g.primitives g.format g.build_text c now draws entries answer in
      rw (s.queue, s.sent, s.lost)
  step-Balanced {c = c} (delivers entries now rounds res h) =
      omega (arith, deliver-Gains g.runtime.duration_text c now (length entries) res)

  sends-total :
      (d : Draws) (c : ResilientClient) (m : Message)
      → Gains c (enqueue_entry d c m).0 (if c.closed then 0 else 1)
  unfolding refuse
  sends-total d c m = elim (Bool-cases c.closed) [
    | inl h ↦ rw (enqueue_entry_closed d c m h) (simp h (omega arith))
    | inr h ↦ simp h (enqueue_entry-Gains d c m h)
  ]

  pub items-close : (q q' : Queue QueueEntry) → close q ≡ some q' → q'.items ≡ q.items
  unfolding close close_with close_channel
  items-close q q' h = ground arith

  Move-Balanced : (n : ℕ) {k : ℕ} {s t : System} → Move g s k t → Balanced n s → Balanced (n + k) t
  Move-Balanced n {s = s} (sends d m) b = omega (arith, b, sends-total d s.client m)
  Move-Balanced n (starts_batch clock messages entries h) b = omega (arith, b)
  Move-Balanced n {s = s} (tries before after entries now draws answer h) b =
      let e =
        send_multipart-Same g.primitives g.format g.build_text s.client now draws entries answer in
      rw (e.queue, e.sent, e.lost) (omega (arith, b))
  Move-Balanced n {s = s} (ends_batch before after entries now rounds res h k) b = omega (
    arith,
    b,
    ap (sum_of length) h,
    sum_of-append length before after entries,
    sum_of-without length before after,
    finish_batch-Gains g.runtime.duration_text s.client now (length entries) res,
  )
  Move-Balanced n (works before after {w} {w'} h step) b = omega (
    arith,
    b,
    ap (sum_of held) h,
    sum_of-append held before after w,
    sum_of-append held before after w',
    step-Balanced step,
  )
  Move-Balanced n (renews e key_uuid) b = omega (arith, b)
  Move-Balanced n closes b = omega (arith, b)
  Move-Balanced n cancels b = omega (arith, b)
  Move-Balanced n {s = s} (closes_queue q h) b =
      rw (items-close s.client.queue q h) (omega (arith, b))

  pub Reach-Balanced :
      {start s : System} {n : ℕ} → Balanced 0 start → Reach g start n s → Balanced n s
  Reach-Balanced b here = b
  Reach-Balanced b (next {n} r m) = Move-Balanced n m (Reach-Balanced b r)

  held_none : (k : ℕ) → sum_of held (replicate k polling) ≡ 0
  held_none zero = refl
  held_none (suc k) = omega (arith, held_none k)

  pub start-Balanced : (c : ResilientClient) → total c ≡ 0 → Balanced 0 (start_workers c)
  unfolding start_workers
  start-Balanced c t = omega (arith, t, held_none (pos_part c.config.worker_count))
