-- ===== src/Sdk/Calls/Typed.antt =====
-- logflux.go, span.go and scope.go: what the entries in the queue of the client hold.
use logflux_go_sdk.Prelude.{
  ◌≡◌, refl, sym, ap, ◌∙◌, subst, ℤ, Bool, true, false, inl, inr, if◌then◌else◌, List, [], ◌∷◌,
  Option, none, some, Str, All, All-append, ok, err,
}
use logflux_go_sdk.Models.{Time}
use logflux_go_sdk.Payload.Json.{
  Payload, log_payload, error_payload, metric_payload, trace_payload, event_payload, audit_payload,
  telemetry_payload, Value, unsupported_value, marshal, json_object, has_finite_values,
}
use logflux_go_sdk.Client.Resilient.State.{ResilientClient, QueueEntry, SendError}
use logflux_go_sdk.Client.Resilient.Enqueue.{
  typed_message, enqueue_entry, send_log_with_entry_type, entry_of, queue_entry,
}
use logflux_go_sdk.Client.Resilient.Admission.{enqueue_entry-Grew}
use logflux_go_sdk.Sdk.{Sdk, Moment, SdkError, sent, send_text, send_payload}
use logflux_go_sdk.Sdk.Calls.{Call, perform, run}
use logflux_go_sdk.Sdk.Calls.Outcome.{Outcome, idle, offered, type_of, perform-Outcome}
use logflux_go_sdk.Sdk.Calls.Quiet.{enqueue_entry-config}

module _ (render : List (Str × Value) → Str) where
  -- An entry whose message is the JSON text of a payload of its type.
  abbrev pub IsTyped : QueueEntry → Type 0
  IsTyped e =
      (p : Payload) × (e.entry.message ≡ render (json_object p)) × (e.entry.entry_type ≡ type_of p)

  -- No `BeforeSend` callback may change an entry, and all that wait are typed.
  pub record HoldsTyped (c : ResilientClient) : Type 0 where
    pub unhooked : c.config.hook ≡ none
    pub all_typed : All IsTyped c.queue.items

  abbrev pub WaitTyped : Option ResilientClient → Type 0
  WaitTyped none = Unit
  WaitTyped (some c) = HoldsTyped c

  new_entry :
      (m : Moment) (node : Str) (p : Payload) (level : ℤ)
      → IsTyped (
          queue_entry m.draws
            (entry_of node (typed_message m.draws (render (json_object p)) level (type_of p))))
  unfolding queue_entry entry_of typed_message
  new_entry m node (log_payload p) level = (log_payload p, refl, refl)
  new_entry m node (error_payload p) level = (error_payload p, refl, refl)
  new_entry m node (metric_payload p) level = (metric_payload p, refl, refl)
  new_entry m node (trace_payload p) level = (trace_payload p, refl, refl)
  new_entry m node (event_payload p) level = (event_payload p, refl, refl)
  new_entry m node (audit_payload p) level = (audit_payload p, refl, refl)
  new_entry m node (telemetry_payload p) level = (telemetry_payload p, refl, refl)

  sent-WaitTyped :
      (s : Sdk) (r : ResilientClient × Option SendError)
      → HoldsTyped r.0
      → WaitTyped (sent s r).0.client
  sent-WaitTyped s (c, none) h = h
  sent-WaitTyped s (c, some e) h = h

  enqueue_entry-HoldsTyped :
      (m : Moment) (c : ResilientClient) (p : Payload) (level : ℤ)
      → HoldsTyped c
      → HoldsTyped
          (enqueue_entry m.draws c
            (typed_message m.draws (render (json_object p)) level (type_of p))).0
  enqueue_entry-HoldsTyped m c p level h =
      let message = typed_message m.draws (render (json_object p)) level (type_of p) in
      record {
        unhooked = ap (λ cfg. cfg.hook) (enqueue_entry-config m.draws c message) ∙ h.unhooked;
        all_typed = elim (enqueue_entry-Grew m.draws c message h.unhooked) [
          | inl same ↦ subst (λ q. All IsTyped q.items) (sym same) h.all_typed
          | inr grown ↦ subst (All IsTyped) (sym grown.1) (
              All-append IsTyped c.queue.items _ h.all_typed
                (new_entry m c.config.node p level, tt))
        ];
      }

  send_text-WaitTyped :
      (m : Moment) (s : Sdk) (c : ResilientClient) (p : Payload) (level : ℤ)
      → WaitTyped (some c)
      → s.client ≡ some c
      → WaitTyped (send_payload render m s c p level (type_of p)).0.client
  unfolding send_payload marshal send_text send_log_with_entry_type
  send_text-WaitTyped m s c p level h e = written (has_finite_values p)
    where
      written :
          (b : Bool)
          → WaitTyped
              (send_text m s c
                (if b then ok (render (json_object p)) else err unsupported_value)
                level
                (type_of p)).0.client
      written true =
          sent-WaitTyped s
            (enqueue_entry m.draws c
              (typed_message m.draws (render (json_object p)) level (type_of p)))
            (enqueue_entry-HoldsTyped m c p level h)
      written false = subst WaitTyped (sym e) h

  perform-WaitTyped :
      (format : Time → Str) (m : Moment) (s : Sdk) (call : Call)
      → WaitTyped s.client
      → WaitTyped (perform render format m s call).0.client
  perform-WaitTyped format m s call h = kept (perform-Outcome render format m s call)
    where
      kept :
          {clean : Bool} {r : Sdk × Option SdkError}
          → Outcome render m s clean r
          → WaitTyped r.0.client
      kept (idle b e) = subst (λ x. WaitTyped x.0.client) (sym e) h
      kept (offered c b p level known f e) =
          subst (λ x. WaitTyped x.0.client) (sym e)
            (send_text-WaitTyped m (record s { breadcrumbs = b }) c p level
              (subst WaitTyped known h) known)

  -- Whatever calls a program makes, in any order: each entry that waits in the client's queue has for
  -- its message the JSON text of a payload, and for its entry type the one of that kind of payload, if
  -- this was so at the start and no `BeforeSend` callback of the client changes entries.
  pub run-WaitTyped :
      (format : Time → Str) (s : Sdk) (calls : List (Moment × Call))
      → WaitTyped s.client
      → WaitTyped (run render format s calls).client
  unfolding run
  run-WaitTyped format s [] h = h
  run-WaitTyped format s ((m, call) ∷ calls) h =
      run-WaitTyped format (perform render format m s call).0 calls
        (perform-WaitTyped format m s call h)
