-- ===== src/Client/Resilient/Workers/Flow.antt =====
-- pkg/client/resilient_client.go: the entries that each step takes over, delivers and drops.
use logflux_go_sdk.Prelude.{
  ℕ, Bool, true, false, List, [], ◌∷◌, ◌++◌, map, drop, Option, none, some, length,
}
use logflux_go_sdk.Models.{LogEntry}
use logflux_go_sdk.Queue.{enqueue}
use logflux_go_sdk.Retry.Errors.{GoError}
use logflux_go_sdk.Client.Resilient.State.{ResilientClient, QueueEntry}
use logflux_go_sdk.Client.Resilient.Workers.{
  Setting, Worker, holding, gathering, sending, WorkerStep, limited, delivers, System, Move, sends,
  starts_batch, ends_batch, works, Reach, here, next,
}

-- The entries that came in, that a delivery without an error had, and that were dropped.
pub record Flow : Type 0 where
  pub taken : List LogEntry
  pub sent : List LogEntry
  pub dropped : List LogEntry

abbrev pub still : Flow
still = record { taken = []; sent = []; dropped = [] }

abbrev pub takes : List LogEntry → Flow
takes entries = record { taken = entries; sent = []; dropped = [] }

-- A delivery of these entries came to this end.
abbrev pub ended : List LogEntry → Option GoError → Flow
ended entries none = record { taken = []; sent = entries; dropped = [] }
ended entries (some e) = record { taken = []; sent = []; dropped = entries }

-- The queue took the entry back, or did not.
abbrev pub returned : LogEntry → Bool → Flow
returned entry true = still
returned entry false = record { taken = []; sent = []; dropped = entry ∷ [] }

abbrev pub entries_of : List QueueEntry → List LogEntry
entries_of es = map (λ (e : QueueEntry). e.entry) es

-- What stands in the queue behind what stood there.
abbrev pub newly_queued : ResilientClient → ResilientClient → List LogEntry
newly_queued c c' = entries_of (drop (length c.queue.items) c'.queue.items)

abbrev pub worker_flow :
    {g : Setting} {k : Bool} {c c' : ResilientClient} {w w' : Worker}
    → WorkerStep g k c w c' w'
    → Flow
worker_flow {c = c} (limited e now h) = returned e.entry (enqueue c.queue e).1
worker_flow (delivers entries now rounds res h) = ended entries res
worker_flow _ = still

abbrev pub flow : {g : Setting} {s : System} {n : ℕ} {t : System} → Move g s n t → Flow
flow {s = s} {t = t} (sends d m) = takes (newly_queued s.client t.client)
flow (starts_batch clock messages entries h) = takes entries
flow (ends_batch before after entries now rounds res h e) = ended entries res
flow (works before after h step) = worker_flow step
flow _ = still

-- All that came in, was delivered and was dropped on the way to a system.
abbrev pub history : {g : Setting} {start s : System} {n : ℕ} → Reach g start n s → Flow
history here = still
history (next r m) =
    let past = history r in
    let now = flow m in
    record {
      taken = past.taken ++ now.taken;
      sent = past.sent ++ now.sent;
      dropped = past.dropped ++ now.dropped;
    }

-- The entries that a worker has in hand.
abbrev pub in_hand : Worker → List LogEntry
in_hand (holding e) = e.entry ∷ []
in_hand (gathering e) = e.entry ∷ []
in_hand (sending entries) = entries
in_hand _ = []
