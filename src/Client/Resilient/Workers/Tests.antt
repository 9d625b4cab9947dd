-- ===== src/Client/Resilient/Workers/Tests.antt =====
-- The theorems about the workers of pkg/client/resilient_client.go at concrete inputs.
use logflux_go_sdk.Prelude.{
  ℕ, ◌%◌, ◌^◌, ◌<◌, ◌≡◌, refl, ◌⊎◌, true, false, [], ◌∷◌, some, none, List, All, ◌+◌, ◌*◌, ◌≤◌,
  arith, codes, length, pos_part,
}
use logflux_go_sdk.Queue.{dequeue, enqueue}
use logflux_go_sdk.Client.Validate.{
  validate_entry, max_message_length, validate_timestamp, validate_log_level, validate_entry_type,
  validate_labels,
}
use logflux_go_sdk.Client.Resilient.State.{ResilientClient, QueueEntry}
use logflux_go_sdk.Client.Resilient.Enqueue.{queue_entry, entry_of, enqueue_entry}
use logflux_go_sdk.Client.Resilient.Samples.{fresh, draws, started, whole, once}
use logflux_go_sdk.Client.Resilient.Workers.{
  Setting, polling, holding, found, System, sends, starts_batch, works, Reach, here, next,
  start_workers,
}
use logflux_go_sdk.Client.Resilient.Workers.Conservation.{Balanced}
use logflux_go_sdk.Client.Resilient.Workers.Flow.{history}
use logflux_go_sdk.Client.Resilient.Workers.Whereabouts.{Weighs, nothing_lost}
use logflux_go_sdk.Client.Resilient.Sending.{start_batch, collect}
use logflux_go_sdk.Models.{LogEntry}
use logflux_go_sdk.Client.Resilient.Workers.Signals.{active, asleep}
use logflux_go_sdk.Client.Resilient.Workers.Conservation.{sum_of}
use logflux_go_sdk.Retry.{Round, retry, done}
use logflux_go_sdk.Client.Resilient.Workers.Shutdown.{Run, begun, moved}
use logflux_go_sdk.Client.Resilient.Workers.Exit.{CanMove, workers_exit}
use logflux_go_sdk.Client.Resilient.Workers.Progress.{no_lost_wakeup}

abbrev setting : Setting
setting = record {
  primitives = record {
    seal = λ key nonce text. text;
    unseal = λ key nonce text. some text;
    gzip = λ text. some text;
    gunzip = λ text. some text;
    base64 = λ text. text;
    unbase64 = λ text. some text;
  };
  format = λ t. [];
  build_text = λ e. codes "encrypt failed";
  runtime = whole;
  config = once;
}

abbrev sent : ResilientClient
sent = (enqueue_entry draws fresh started).0

-- After one send.
abbrev one_sent : System
one_sent = record {
  client = sent;
  cancelled = false;
  workers = polling ∷ polling ∷ [];
  batches = [];
}

one_sent-Reach : Reach setting (start_workers fresh) 1 one_sent
unfolding start_workers
one_sent-Reach = next here (sends draws started)

abbrev entry : QueueEntry
entry = queue_entry draws (entry_of (codes "host") started)

-- And a worker took the entry.
abbrev one_taken : System
one_taken = record {
  client = record sent { queue = (dequeue sent.queue).0 };
  cancelled = false;
  workers = holding entry ∷ polling ∷ [];
  batches = [];
}

one_taken-Reach : Reach setting (start_workers fresh) 1 one_taken
unfolding enqueue_entry validate_entry enqueue dequeue max_message_length validate_timestamp
    validate_log_level validate_entry_type validate_labels
one_taken-Reach =
    next one_sent-Reach (works [] (polling ∷ []) refl (found (dequeue sent.queue).0 entry refl))

-- Then a call of `SendLogBatch` sets out to send the same message.
abbrev one_batch : System
one_batch = record one_taken { batches = (entry_of (codes "host") started ∷ []) ∷ [] }

one_batch-Reach : Reach setting (start_workers fresh) 2 one_batch
unfolding enqueue_entry validate_entry enqueue dequeue max_message_length validate_timestamp
    validate_log_level validate_entry_type validate_labels start_batch collect
one_batch-Reach =
    next one_taken-Reach
      (starts_batch draws.clock (started ∷ []) (entry_of (codes "host") started ∷ []) refl)

nothing_lost_example :
    ((weight : LogEntry → ℕ) → Weighs weight one_batch (history one_batch-Reach))
    × (one_batch.client.total_sent % 2 ^ 64 ≡ length (history one_batch-Reach).sent % 2 ^ 64)
    × Balanced 2 one_batch
nothing_lost_example = nothing_lost setting fresh one_batch 2 refl one_batch-Reach

held_in_queue : 0 < length sent.queue.items
unfolding enqueue_entry validate_entry enqueue max_message_length validate_timestamp
    validate_log_level validate_entry_type validate_labels
held_in_queue = omega arith

two_workers : 0 < pos_part fresh.config.worker_count
two_workers = omega arith

no_lost_wakeup_example :
    (0 < sum_of active one_sent.workers)
    ⊎ ((one_sent.client.queue.not_empty ≡ true) × (0 < sum_of asleep one_sent.workers))
no_lost_wakeup_example =
    no_lost_wakeup setting fresh one_sent 1 refl two_workers one_sent-Reach refl held_in_queue

-- The queue is closed while it holds an entry, and a worker takes it.
abbrev shut : System
shut = record one_sent {
  client = record sent { queue = record sent.queue { closed = true; close_ch = true } };
}

abbrev shut_taken : System
shut_taken = record {
  client = record sent { queue = (dequeue shut.client.queue).0 };
  cancelled = false;
  workers = holding entry ∷ polling ∷ [];
  batches = [];
}

shut-Run : Run setting shut 1 shut_taken
unfolding enqueue_entry validate_entry enqueue dequeue max_message_length validate_timestamp
    validate_log_level validate_entry_type validate_labels
shut-Run =
    moved begun (works [] (polling ∷ []) refl (found (dequeue shut.client.queue).0 entry refl))

abbrev one_round : List (Round whole)
one_round = record { outcome = none; random = 0; cancelled = none } ∷ []

one_round_ends : retry whole once one_round ≡ done none
unfolding retry
one_round_ends = refl

workers_exit_example :
    (1 ≤ 3 + 8 * length shut.client.queue.items + 7 * length shut.workers)
    × All (CanMove setting shut_taken) shut_taken.workers
workers_exit_example = workers_exit setting one_round none one_round_ends refl refl shut-Run
