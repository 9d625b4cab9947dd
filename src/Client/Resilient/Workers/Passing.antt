-- ===== src/Client/Resilient/Workers/Passing.antt =====
-- pkg/client/resilient_client.go: what each step of a worker does with the entries.
use logflux_go_sdk.Prelude.{
  ℕ, ◌+◌, ◌-◌, ◌%◌, ◌^◌, ◌≡◌, refl, sym, ap, ◌∙◌, inl, inr, ℤ, pos, pos_part, ltb_ℤ, Bool, true,
  false, List, [], ◌∷◌, ◌++◌, take, drop, take-append-drop, Option, none, some, arith, Bool-cases,
  Str, length,
}
use logflux_go_sdk.Models.{Time, LogEntry}
use logflux_go_sdk.Queue.{Queue, enqueue, dequeue}
use logflux_go_sdk.Queue.Fifo.{
  enqueue_refused, enqueue_accepted, dequeue_batch_lem, dequeue_empty, dequeue_front,
}
use logflux_go_sdk.Retry.Errors.{GoError}
use logflux_go_sdk.Client.Resilient.State.{ResilientClient, QueueEntry, record_drop, record_error}
use logflux_go_sdk.Client.Resilient.Sending.{handle_send_error}
use logflux_go_sdk.Client.Resilient.Workers.{
  Setting, Worker, WorkerStep, found, missed, stops, waits, sees_cancel, sees_close, sees_entry,
  drains, drained, limited, unlimited, paused, pause_cancelled, gathers, attempts, delivers,
  re_enqueued, re_enqueue, gather, deliver,
}
use logflux_go_sdk.Client.Resilient.Workers.Gains.{send_multipart-Same}
use logflux_go_sdk.Client.Resilient.Workers.Conservation.{sum_of, dequeue-none}
use logflux_go_sdk.Client.Resilient.Workers.Flow.{
  Flow, still, ended, returned, entries_of, worker_flow, in_hand,
}

module _ (weight : LogEntry → ℕ) where
  abbrev pub queued_weight : Queue QueueEntry → ℕ
  queued_weight q = sum_of weight (entries_of q.items)

  -- What a step does with the entries of the queue and of whoever steps, which weigh `before` and `after`
  -- it, and with the count of what was sent.
  pub record Passes (c c' : ResilientClient) (before after : ℕ) (f : Flow) : Type 0 where
    pub weighs :
        queued_weight c'.queue + after + (sum_of weight f.sent + sum_of weight f.dropped)
        ≡ queued_weight c.queue + before + sum_of weight f.taken
    pub counted : c'.total_sent % 2 ^ 64 ≡ (c.total_sent + length f.sent) % 2 ^ 64

  pub weight-append :
      (xs ys : List QueueEntry)
      → sum_of weight (entries_of (xs ++ ys))
        ≡ sum_of weight (entries_of xs) + sum_of weight (entries_of ys)
  weight-append [] ys = omega arith
  weight-append (x ∷ xs) ys = omega (arith, weight-append xs ys)

  pub same-Passes :
      (c c' : ResilientClient) (n : ℕ)
      → c'.queue.items ≡ c.queue.items
      → c'.total_sent ≡ c.total_sent
      → Passes c c' n n still
  same-Passes c c' n h k = record {
    weighs = omega (arith, ap (λ es. sum_of weight (entries_of es)) h);
    counted = omega (arith, k);
  }

  dequeue-weighs :
      (q q' : Queue QueueEntry) (e : QueueEntry) (xs : List QueueEntry)
      → q.items ≡ xs
      → dequeue q ≡ (q', some e)
      → queued_weight q' + weight e.entry ≡ queued_weight q
  dequeue-weighs q q' e [] h k = ground (arith, dequeue_empty q h)
  dequeue-weighs q q' e (x ∷ xs) h k =
      let (out, rest, _, _, _) = dequeue_front q x xs h in
      let given : some e ≡ some x =
        sym (ap (λ (y : Queue QueueEntry × Option QueueEntry). y.1) k) ∙ out in
      let same : e ≡ x = cc in
      let left : q'.items ≡ xs =
        ap (λ (y : Queue QueueEntry × Option QueueEntry). y.0.items) (sym k) ∙ rest in
      omega (
        arith,
        ap (λ (y : QueueEntry). weight y.entry) same,
        ap (λ es. sum_of weight (entries_of es)) left,
        ap (λ es. sum_of weight (entries_of es)) h,
      )

  found-Passes :
      (c : ResilientClient) (q : Queue QueueEntry) (e : QueueEntry)
      → dequeue c.queue ≡ (q, some e)
      → Passes c (record c { queue = q }) 0 (weight e.entry + 0) still
  found-Passes c q e h = record {
    weighs = omega (arith, dequeue-weighs c.queue q e c.queue.items refl h);
    counted = omega arith;
  }

  gather-Passes :
      (c : ResilientClient) (e : QueueEntry)
      → Passes c (gather c e).0 (weight e.entry + 0) (sum_of weight (gather c e).1) still
  unfolding gather
  gather-Passes c e = elim (Bool-cases (ltb_ℤ (pos 1) c.config.batch_size)) [
    | inl h ↦
        let n = pos_part c.config.batch_size - 1 in
        let (left, out, _, _, _) = dequeue_batch_lem c.queue n in
        rw h (record {
          weighs = omega (
            arith,
            ap (λ es. sum_of weight (entries_of es)) left,
            ap (λ es. sum_of weight (entries_of es)) out,
            weight-append (take n c.queue.items) (drop n c.queue.items),
            ap (λ es. sum_of weight (entries_of es)) (take-append-drop n c.queue.items),
          );
          counted = omega arith;
        })
    | inr h ↦ rw h (record { weighs = omega arith; counted = omega arith })
  ]

  re_enqueued-Passes :
      (c : ResilientClient) (e : QueueEntry) (q : Queue QueueEntry) (b : Bool)
      → enqueue c.queue e ≡ (q, b)
      → Passes c (re_enqueued c (q, b)) (weight e.entry + 0) 0 (returned e.entry b)
  unfolding re_enqueued record_drop
  re_enqueued-Passes c e q true h =
      let same : (enqueue c.queue e).0 ≡ q = ap (λ (x : Queue QueueEntry × Bool). x.0) h in
      let longer : q.items ≡ c.queue.items ++ e ∷ [] =
        ap (λ (x : Queue QueueEntry). x.items) (sym same)
        ∙ (enqueue_accepted c.queue e (ap (λ (x : Queue QueueEntry × Bool). x.1) h)).0 in
      record {
        weighs = omega (
          arith,
          ap (λ es. sum_of weight (entries_of es)) longer,
          weight-append c.queue.items (e ∷ []),
        );
        counted = omega arith;
      }
  re_enqueued-Passes c e q false h =
      let same : q ≡ c.queue =
        sym (ap (λ (x : Queue QueueEntry × Bool). x.0) h)
        ∙ enqueue_refused c.queue e (ap (λ (x : Queue QueueEntry × Bool). x.1) h) in
      rw same (record { weighs = omega arith; counted = omega arith })

  re_enqueue-Passes :
      (c : ResilientClient) (e : QueueEntry)
      → Passes c (re_enqueue c e) (weight e.entry + 0) 0 (returned e.entry (enqueue c.queue e).1)
  unfolding re_enqueue
  re_enqueue-Passes c e = re_enqueued-Passes c e _ _ refl

  deliver-Passes :
      (duration_text : ℤ → Str) (c : ResilientClient) (now : Time) (entries : List LogEntry)
      (res : Option GoError)
      → Passes c
          (deliver duration_text c now (length entries) res)
          (sum_of weight entries)
          0
          (ended entries res)
  unfolding deliver handle_send_error record_error record_drop
  deliver-Passes duration_text c now entries none = record {
    weighs = omega arith;
    counted = omega arith;
  }
  deliver-Passes duration_text c now entries (some e) = record {
    weighs = omega arith;
    counted = omega arith;
  }

  -- Each step of a worker.
  pub step-Passes :
      {g : Setting} {k : Bool} {c c' : ResilientClient} {w w' : Worker}
      (step : WorkerStep g k c w c' w')
      → Passes c c' (sum_of weight (in_hand w)) (sum_of weight (in_hand w')) (worker_flow step)
  step-Passes {c = c} (found q e h) = found-Passes c q e h
  step-Passes {c = c} (missed q h) =
      let (same, _) = dequeue-none c.queue q c.queue.items refl h in
      same-Passes c _ 0 (ap (λ (x : Queue QueueEntry). x.items) same) refl
  step-Passes {c = c} (stops h) = same-Passes c c 0 refl refl
  step-Passes {c = c} (waits h) = same-Passes c c 0 refl refl
  step-Passes {c = c} (sees_cancel h) = same-Passes c c 0 refl refl
  step-Passes {c = c} (sees_close h) = same-Passes c c 0 refl refl
  step-Passes {c = c} (sees_entry h) = same-Passes c _ 0 refl refl
  step-Passes {c = c} (drains q e h) = found-Passes c q e h
  step-Passes {c = c} (drained q h) =
      let (same, _) = dequeue-none c.queue q c.queue.items refl h in
      same-Passes c _ 0 (ap (λ (x : Queue QueueEntry). x.items) same) refl
  step-Passes {c = c} (limited e now h) = re_enqueue-Passes c e
  step-Passes {c = c} (unlimited e now h) = same-Passes c c (weight e.entry + 0) refl refl
  step-Passes {c = c} paused = same-Passes c c 0 refl refl
  step-Passes {c = c} (pause_cancelled h) = same-Passes c c 0 refl refl
  step-Passes {c = c} (gathers e) = gather-Passes c e
  step-Passes {g} {c = c} (attempts entries now draws answer) =
      let s = send_multipart-Same g.primitives g.format g.build_text c now draws entries answer in
      same-Passes c _ (sum_of weight entries) (ap (λ (x : Queue QueueEntry). x.items) s.queue)
        s.sent
  step-Passes {g} {c = c} (delivers entries now rounds res h) =
      deliver-Passes g.runtime.duration_text c now entries res
