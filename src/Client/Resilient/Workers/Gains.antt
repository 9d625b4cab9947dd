-- ===== src/Client/Resilient/Workers/Gains.antt =====
-- pkg/client/resilient_client.go: what each call adds to the entries that the client answers for.
use logflux_go_sdk.Prelude.{
  ℕ, ◌+◌, ◌-◌, ◌%◌, ◌^◌, ◌≡◌, refl, sym, ap, ◌∙◌, inl, inr, ℤ, pos, pos_part, ltb_ℤ, eqb_ℤ, Bool,
  true, false, ◌&&◌, not, List, [], ◌∷◌, take-append-drop, Option, none, some, arith, Bool-cases,
  Str, length, length-append, length-map, Except, ok, err,
}
use logflux_go_sdk.Models.{Time, LogEntry}
use logflux_go_sdk.Queue.{Queue, enqueue, dequeue_batch}
use logflux_go_sdk.Queue.Fifo.{enqueue_refused, enqueue_accepted, dequeue_batch_lem}
use logflux_go_sdk.Crypto.{Primitives, CryptoError}
use logflux_go_sdk.Retry.Errors.{GoError}
use logflux_go_sdk.Client.Multipart.{Part, build}
use logflux_go_sdk.Client.Resilient.State.{
  ResilientClient, QueueEntry, DropReason, SendError, record_drop, record_error, rate_limited,
  send_error,
}
use logflux_go_sdk.Client.Resilient.Enqueue.{Draws, Message, enqueue_entry, queue_entry, refuse}
use logflux_go_sdk.Client.Resilient.Sending.{
  Response, Transport, no_request, no_response, responded, update_rate_limit_info, pause,
  block_first, block_category, handle_response, transported, built, builder_of, send_multipart,
  drop_reason_of, handle_send_error, finish_batch,
}
use logflux_go_sdk.Client.Resilient.Accounting.{Fate, queued, dropped, enqueue_entry-Fate}
use logflux_go_sdk.Client.Resilient.Workers.{re_enqueued, re_enqueue, gather, deliver}

-- The entries that the client has in its queue, has sent or has dropped.
abbrev pub total : ResilientClient → ℕ
total c = length c.queue.items + (c.total_sent + c.total_dropped)

-- In the int64 counters' arithmetic.
abbrev pub Gains : ResilientClient → ResilientClient → ℕ → Type 0
Gains c c' n = total c' % 2 ^ 64 ≡ (total c + n) % 2 ^ 64

record_drop-Gains :
    (c : ResilientClient) (reason : DropReason) (n : ℕ) → Gains c (record_drop c reason n) n
unfolding record_drop
record_drop-Gains c reason n = omega arith

length-enqueue :
    (q : Queue QueueEntry) (e : QueueEntry)
    → (enqueue q e).1 ≡ true
    → length (enqueue q e).0.items ≡ length q.items + 1
length-enqueue q e h = ap length (enqueue_accepted q e h).0 ∙ length-append q.items (e ∷ [])

Fate-Gains :
    (d : Draws) (c : ResilientClient) (r : ResilientClient × Option SendError)
    → Fate d c r
    → Gains c r.0 1
Fate-Gains d c r (queued entry h e) =
    rw e (grind (arith, length-enqueue c.queue (queue_entry d entry) h))
Fate-Gains d c r (dropped reason error e) = rw e (record_drop-Gains c reason 1)

pub enqueue_entry-Gains :
    (d : Draws) (c : ResilientClient) (m : Message)
    → c.closed ≡ false
    → Gains c (enqueue_entry d c m).0 1
enqueue_entry-Gains d c m h = Fate-Gains d c _ (enqueue_entry-Fate d c m h)

re_enqueued-Gains :
    (c : ResilientClient) (e : QueueEntry) (q : Queue QueueEntry) (b : Bool)
    → enqueue c.queue e ≡ (q, b)
    → Gains c (re_enqueued c (q, b)) 1
unfolding re_enqueued
re_enqueued-Gains c e q true h =
    let same : (enqueue c.queue e).0 ≡ q = ap (λ (x : Queue QueueEntry × Bool). x.0) h in
    let longer = length-enqueue c.queue e (ap (λ (x : Queue QueueEntry × Bool). x.1) h) in
    let longer' : length q.items ≡ length c.queue.items + 1 =
      ap (λ (x : Queue QueueEntry). length x.items) (sym same) ∙ longer in
    omega (arith, longer')
re_enqueued-Gains c e q false h =
    let same : q ≡ c.queue =
      sym (ap (λ (x : Queue QueueEntry × Bool). x.0) h)
      ∙ enqueue_refused c.queue e (ap (λ (x : Queue QueueEntry × Bool). x.1) h) in
    let kept : length q.items ≡ length c.queue.items =
      ap (λ (x : Queue QueueEntry). length x.items) same in
    let gained = record_drop-Gains (record c { queue = q }) rate_limited 1 in
    omega (arith, gained, kept)

pub re_enqueue-Gains : (c : ResilientClient) (e : QueueEntry) → Gains c (re_enqueue c e) 1
unfolding re_enqueue
re_enqueue-Gains c e = re_enqueued-Gains c e _ _ refl

length-dequeue_batch :
    (q : Queue QueueEntry) (n : ℕ)
    → length (dequeue_batch q n).1 + length (dequeue_batch q n).0.items ≡ length q.items
length-dequeue_batch q n =
    let (left, out, _, _, _) = dequeue_batch_lem q n in
    sym (length-append (dequeue_batch q n).1 (dequeue_batch q n).0.items)
    ∙ ap length (rw (left, out) (take-append-drop n q.items))

-- The batch takes out of the queue what it holds beyond the entry in hand.
pub gather-total :
    (c : ResilientClient) (e : QueueEntry)
    → total (gather c e).0 + length (gather c e).1 ≡ total c + 1
unfolding gather
gather-total c e = elim (Bool-cases (ltb_ℤ (pos 1) c.config.batch_size)) [
  | inl h ↦
      let n = pos_part c.config.batch_size - 1 in
      rw h (
        omega (
          arith,
          length-dequeue_batch c.queue n,
          length-map (λ (x : QueueEntry). x.entry) (dequeue_batch c.queue n).1,
        ))
  | inr h ↦ rw h (omega arith)
]

handle_send_error-Gains :
    (duration_text : ℤ → Str) (c : ResilientClient) (e : GoError) (n : ℕ)
    → Gains c (handle_send_error duration_text c e n) n
unfolding handle_send_error record_error
handle_send_error-Gains duration_text c e n = record_drop-Gains c (drop_reason_of duration_text e) n

pub deliver-Gains :
    (duration_text : ℤ → Str) (c : ResilientClient) (now : Time) (n : ℕ) (res : Option GoError)
    → Gains c (deliver duration_text c now n res) n
unfolding deliver
deliver-Gains duration_text c now n none = omega arith
deliver-Gains duration_text c now n (some e) = handle_send_error-Gains duration_text c e n

pub finish_batch-Gains :
    (duration_text : ℤ → Str) (c : ResilientClient) (now : Time) (n : ℕ) (res : Option GoError)
    → Gains c (finish_batch duration_text c now n res).0 n
unfolding finish_batch refuse record_error
finish_batch-Gains duration_text c now n none = omega arith
finish_batch-Gains duration_text c now n (some e) = record_drop-Gains c send_error n

-- What an attempt leaves alone.
pub record Same (c c' : ResilientClient) : Type 0 where
  pub queue : c'.queue ≡ c.queue
  pub sent : c'.total_sent ≡ c.total_sent
  pub lost : c'.total_dropped ≡ c.total_dropped

Same-refl : (c : ResilientClient) → Same c c
Same-refl c = record { queue = refl; sent = refl; lost = refl }

block_first-Same : (c : ResilientClient) (entries : List LogEntry) → Same c (block_first c entries)
unfolding block_first block_category
block_first-Same c [] = Same-refl c
block_first-Same c (entry ∷ entries) = record { queue = refl; sent = refl; lost = refl }

abbrev refused : Response → Bool
refused r =
    not (eqb_ℤ r.status_code (pos 200))
    && not (eqb_ℤ r.status_code (pos 201))
    && not (eqb_ℤ r.status_code (pos 202))

handle_response-Same :
    (c : ResilientClient) (now : Time) (entries : List LogEntry) (r : Response)
    → Same c (handle_response c now entries r).0
unfolding handle_response update_rate_limit_info pause
handle_response-Same c now entries r = elim (Bool-cases (eqb_ℤ r.status_code (pos 429))) [
  | inl h ↦ rw h (record { queue = refl; sent = refl; lost = refl })
  | inr h ↦ rw h (elim (Bool-cases (eqb_ℤ r.status_code (pos 507))) [
    | inl k ↦
        let blocked = block_first-Same (update_rate_limit_info c r) entries in
        rw k (record { queue = blocked.queue; sent = blocked.sent; lost = blocked.lost })
    | inr k ↦ rw k (elim (Bool-cases (refused r)) [
      | inl l ↦ rw l (record { queue = refl; sent = refl; lost = refl })
      | inr l ↦ rw l (record { queue = refl; sent = refl; lost = refl })
    ])
  ])
]

transported-Same :
    (c : ResilientClient) (now : Time) (entries : List LogEntry) (t : Transport)
    → Same c (transported c now entries t).0
unfolding transported
transported-Same c now entries (no_request text) = Same-refl c
transported-Same c now entries (no_response text) = Same-refl c
transported-Same c now entries (responded r) = handle_response-Same c now entries r

module _ (p : Primitives) (format : Time → Str) (build_text : CryptoError → Str) where
  built-Same :
      (c : ResilientClient) (now : Time) (entries : List LogEntry) (answer : List Part → Transport)
      (made : Except CryptoError (List Part))
      → Same c (built p format build_text c now entries answer made).0
  unfolding built
  built-Same c now entries answer (ok parts) = transported-Same c now entries (answer parts)
  built-Same c now entries answer (err e) = Same-refl c

  pub send_multipart-Same :
      (c : ResilientClient) (now : Time) (draws : ℕ → Option Str) (entries : List LogEntry)
      (answer : List Part → Transport)
      → Same c (send_multipart p format build_text c now draws entries answer).0
  unfolding send_multipart
  send_multipart-Same c now draws entries answer =
      built-Same c now entries answer (build p format (builder_of c) draws 0 entries)
