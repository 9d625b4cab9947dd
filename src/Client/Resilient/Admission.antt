-- ===== src/Client/Resilient/Admission.antt =====
-- pkg/client/resilient_client.go: which entries the queue takes in.
use logflux_go_sdk.Prelude.{
  ◌≡◌, refl, sym, ap, ◌∙◌, ◌⊎◌, inl, inr, pos, ◌≤ℤ◌, Bool, true, false, [], ◌∷◌, ◌++◌, Option, none,
  some, arith, Bool-cases, Str,
}
use logflux_go_sdk.Models.{LogEntry, entry_type_category}
use logflux_go_sdk.Queue.{Queue, enqueue}
use logflux_go_sdk.Queue.Fifo.{enqueue_refused, enqueue_accepted}
use logflux_go_sdk.Client.Validate.{EntryError, Clock, validate_entry}
use logflux_go_sdk.Client.Validate.Acceptable.{IsAcceptable, validate_entry_iff}
use logflux_go_sdk.Client.Resilient.State.{
  ResilientClient, QueueEntry, SendError, record_drop, quota_exceeded, over_quota,
}
use logflux_go_sdk.Client.Resilient.Enqueue.{
  Draws, Message, refuse, queue_entry, queue_result, admit, run_hook, validated, entry_of,
  enqueue_entry,
}

-- The entries that an open client without a hook may send.
pub record Clean (clock : Clock) (entry : LogEntry) : Type 0 where
  pub acceptable : IsAcceptable clock entry
  pub typed : (pos 1 ≤ℤ entry.entry_type) × (entry.entry_type ≤ℤ pos 7)

typed_entry :
    (node : Str) (m : Message) (clock : Clock)
    → IsAcceptable clock (entry_of node m)
    → (pos 1 ≤ℤ (entry_of node m).entry_type) × ((entry_of node m).entry_type ≤ℤ pos 7)
unfolding entry_of
typed_entry node m clock a = ground (arith, a.entry_type_known)

refuse_queue : (c : ResilientClient) (e : SendError) → (refuse c e).0.queue ≡ c.queue
unfolding refuse
refuse_queue c e = refl

-- The queue grew by one clean entry, that of the message, or stayed.
abbrev pub Grew : Draws → ResilientClient → Message → ResilientClient → Type 0
Grew d c m c' =
    (c'.queue ≡ c.queue)
    ⊎ (Clean d.clock (entry_of c.config.node m)
        × (c'.queue.items ≡ c.queue.items ++ queue_entry d (entry_of c.config.node m) ∷ []))

queue_result-Grew :
    (d : Draws) (c : ResilientClient) (m : Message) (q : Queue QueueEntry) (b : Bool)
    → Clean d.clock (entry_of c.config.node m)
    → enqueue c.queue (queue_entry d (entry_of c.config.node m)) ≡ (q, b)
    → Grew d c m (queue_result c (q, b)).0
unfolding queue_result record_drop
queue_result-Grew d c m q true k h = inr (
  k,
  ap (λ (x : Queue QueueEntry × Bool). x.0.items) (sym h)
      ∙ (enqueue_accepted c.queue (queue_entry d (entry_of c.config.node m))
          (ap (λ (x : Queue QueueEntry × Bool). x.1) h)).0,
)
queue_result-Grew d c m q false k h = inl (
    refuse_queue _ _
    ∙ sym (ap (λ (x : Queue QueueEntry × Bool). x.0) h)
    ∙ enqueue_refused c.queue (queue_entry d (entry_of c.config.node m))
        (ap (λ (x : Queue QueueEntry × Bool). x.1) h))

admit-Grew :
    (d : Draws) (c : ResilientClient) (m : Message)
    → Clean d.clock (entry_of c.config.node m)
    → Grew d c m (admit d c (entry_of c.config.node m)).0
unfolding admit record_drop
admit-Grew d c m k =
    elim (Bool-cases
      (c.quota_blocked (entry_type_category (entry_of c.config.node m).entry_type))) [
        | inl b ↦ rw b (inl (refuse_queue _ _))
        | inr b ↦ rw b (queue_result-Grew d c m _ _ k refl)
      ]

unhooked-Grew :
    (d : Draws) (c : ResilientClient) (m : Message) (hook : Option (LogEntry → Option LogEntry))
    → hook ≡ none
    → IsAcceptable d.clock (entry_of c.config.node m)
    → Grew d c m (run_hook d c (entry_of c.config.node m) hook).0
unfolding run_hook
unhooked-Grew d c m none n a =
    admit-Grew d c m (record { acceptable = a; typed = typed_entry c.config.node m d.clock a })
unhooked-Grew d c m (some hook) n a = cc

validated-Grew :
    (d : Draws) (c : ResilientClient) (m : Message) (o : Option EntryError)
    → c.config.hook ≡ none
    → validate_entry d.clock (entry_of c.config.node m) ≡ o
    → Grew d c m (validated d c (entry_of c.config.node m) o).0
unfolding validated record_drop
validated-Grew d c m (some e) n h = inl (refuse_queue _ _)
validated-Grew d c m none n h =
    unhooked-Grew d c m c.config.hook n
      ((validate_entry_iff d.clock (entry_of c.config.node m)).0 h)

-- Without a `BeforeSend` hook a send leaves the queue as it was, or adds one entry, that of the message,
-- which passes validation and whose type is one of the seven known ones.
pub enqueue_entry-Grew :
    (d : Draws) (c : ResilientClient) (m : Message)
    → c.config.hook ≡ none
    → Grew d c m (enqueue_entry d c m).0
unfolding enqueue_entry refuse
enqueue_entry-Grew d c m n = elim (Bool-cases c.closed) [
  | inl h ↦ simp h (inl refl)
  | inr h ↦ simp h (validated-Grew d c m _ n refl)
]

-- An entry of a category whose quota is used up is dropped and counted, and the queue stays.
pub admit_blocked :
    (d : Draws) (c : ResilientClient) (entry : LogEntry)
    → c.quota_blocked (entry_type_category entry.entry_type) ≡ true
    → admit d c entry
      ≡ refuse (record_drop c quota_exceeded 1) (over_quota (entry_type_category entry.entry_type))
unfolding admit
admit_blocked d c entry h = rw h
