-- ===== src/Client/Sync/Batch.antt =====
-- pkg/client/client.go: a batch of the synchronous client beside a single entry, and beside a batch of
-- the resilient client.
use logflux_go_sdk.Prelude.{
  ◌≡◌, refl, subst, ok_injective, ℕ, Bool-cases, inl, inr, List, [], ◌∷◌, Option, none, some, ◌==◌,
  length, Str, ok,
}
use logflux_go_sdk.Models.{Time, LogEntry}
use logflux_go_sdk.Crypto.{Primitives}
use logflux_go_sdk.Client.Validate.{EntryError, Clock, validate_entry}
use logflux_go_sdk.Client.Multipart.{Part}
use logflux_go_sdk.Client.Resilient.State.{ResilientClient}
use logflux_go_sdk.Client.Resilient.Enqueue.{Message, entry_of}
use logflux_go_sdk.Client.Resilient.Meant.{Kept, no_more, passed, collected-Kept}
use logflux_go_sdk.Client.Resilient.Sending.{collect, collected, hooked}
use logflux_go_sdk.Client.Sync.{Client}
use logflux_go_sdk.Client.Sync.Sends.{
  Transport, ErrorBody, collect_entries, send_entries, send_entry, send_log_batch, checked, given,
  with_collected,
}

-- The entries that are collected are those that the messages ask for.
pub collect_entries-Kept :
    (clock : Clock) (c : Client) (messages : List Message) (entries : List LogEntry)
    → collect_entries clock c messages ≡ ok entries
    → Kept clock c.node c.hook messages entries
unfolding collect_entries
collect_entries-Kept clock c [] entries h =
    subst (Kept clock c.node c.hook []) (ok_injective h) no_more
collect_entries-Kept clock c (m ∷ ms) entries h =
    collected-Kept clock c.node c.hook m ms (validate_entry clock (entry_of c.node m))
      (hooked c.hook (entry_of c.node m)) (collect_entries clock c ms) entries refl (same c.hook)
      (collect_entries-Kept clock c ms) h
  where
    same :
        (hook : Option (LogEntry → Option LogEntry))
        → passed hook (entry_of c.node m) ≡ hooked hook (entry_of c.node m)
    same none = refl
    same (some hook) = refl

-- Both clients make the same entries of a batch, or refuse it for the same reason, if they have the same
-- node and the same callback.
pub collect_entries-collect :
    (clock : Clock) (c : Client) (r : ResilientClient) (messages : List Message)
    → c.node ≡ r.config.node
    → c.hook ≡ r.config.hook
    → collect_entries clock c messages ≡ collect clock r messages
unfolding collect_entries collect
collect_entries-collect clock c r [] n h = refl
collect_entries-collect clock c r (m ∷ ms) n h =
    simp (n, h, collect_entries-collect clock c r ms n h) refl

module _ (p : Primitives) (format : Time → Str) (decode : Str → Option ErrorBody) where
  -- A batch of one message is the sending of its entry.
  pub send_log_batch-single :
      (c : Client) (clock : Clock) (draws : ℕ → Option Str) (http : List Part → Transport)
      (m : Message)
      → send_log_batch p format decode c clock draws http (m ∷ [])
        ≡ send_entry p format decode c clock draws http (entry_of c.node m)
  unfolding send_log_batch send_entry collect_entries entry_of
  send_log_batch-single c clock draws http m = elim (Bool-cases (length c.node == 0)) [
    | inl unnamed ↦ simp unnamed (one (validate_entry clock entry) (hooked c.hook entry))
    | inr named ↦ simp named (one (validate_entry clock entry) (hooked c.hook entry))
  ]
    where
      entry : LogEntry
      entry = entry_of c.node m

      one :
          (o : Option EntryError) (x : Option LogEntry)
          → with_collected p format decode c
              (collected o x (ok []))
              (send_entries p format decode c draws http)
            ≡ checked p format decode c o (
                given p format decode c x
                  (λ entry. send_entries p format decode c draws http (entry ∷ [])))
      one (some e) x = refl
      one none none = refl
      one none (some entry) = refl
