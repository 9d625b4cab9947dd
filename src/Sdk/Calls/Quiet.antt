-- ===== src/Sdk/Calls/Quiet.antt =====
-- logflux.go, span.go and scope.go: what the calls return to a program in failsafe mode.
use logflux_go_sdk.Prelude.{
  ◌≡◌, refl, sym, ap, ◌∙◌, subst, Bool, true, Bool-cases, inl, inr, List, [], ◌∷◌, Option, none,
  some, Str, All, ok, err, Except, ℤ,
}
use logflux_go_sdk.Models.{Time}
use logflux_go_sdk.Payload.Json.{Value, MarshalError, marshal, json_object}
use logflux_go_sdk.Client.Resilient.State.{ResilientClient, ClientConfig, SendError, record_drop}
use logflux_go_sdk.Client.Resilient.Enqueue.{
  Draws, Message, typed_message, enqueue_entry, send_log_with_entry_type, refuse,
}
use logflux_go_sdk.Client.Resilient.Accounting.{
  Fate, queued, dropped, enqueue_entry-Fate, enqueue_entry_closed, enqueue_entry_silent,
}
use logflux_go_sdk.Sdk.{Sdk, Moment, SdkError, sent, send_text, send_payload}
use logflux_go_sdk.Sdk.Calls.{Call, perform, errors}
use logflux_go_sdk.Sdk.Calls.Outcome.{Outcome, idle, offered, type_of, writable, perform-Outcome}

-- The configuration of the client, if there is one.
abbrev pub config_of : Option ResilientClient → Option ClientConfig
config_of none = none
config_of (some c) = some c.config

abbrev pub failsafe : Option ClientConfig → Bool
failsafe none = true
failsafe (some cfg) = cfg.failsafe_mode

Fate-config :
    (d : Draws) (c : ResilientClient) (r : ResilientClient × Option SendError)
    → Fate d c r
    → r.0.config ≡ c.config
unfolding record_drop
Fate-config d c r (queued entry h e) = ap (λ x. x.0.config) e
Fate-config d c r (dropped reason error e) = ap (λ x. x.0.config) e

pub enqueue_entry-config :
    (d : Draws) (c : ResilientClient) (m : Message) → (enqueue_entry d c m).0.config ≡ c.config
unfolding refuse
enqueue_entry-config d c m = elim (Bool-cases c.closed) [
  | inl h ↦ rw (enqueue_entry_closed d c m h) refl
  | inr h ↦ Fate-config d c _ (enqueue_entry-Fate d c m h)
]

sent-config :
    (s : Sdk) (r : ResilientClient × Option SendError)
    → (config_of (sent s r).0.client ≡ some r.0.config) × ((sent s r).0.hooks ≡ s.hooks)
sent-config s (c, none) = (refl, refl)
sent-config s (c, some e) = (refl, refl)

send_text-config :
    (m : Moment) (s : Sdk) (c : ResilientClient) (x : Except MarshalError Str) (level ty : ℤ)
    → s.client ≡ some c
    → (config_of (send_text m s c x level ty).0.client ≡ config_of s.client)
      × ((send_text m s c x level ty).0.hooks ≡ s.hooks)
unfolding send_text send_log_with_entry_type
send_text-config m s c (err e) level ty h = (refl, refl)
send_text-config m s c (ok text) level ty h = (
  (sent-config s (enqueue_entry m.draws c (typed_message m.draws text level ty))).0
      ∙ ap some (enqueue_entry-config m.draws c (typed_message m.draws text level ty))
      ∙ sym (ap config_of h),
  (sent-config s (enqueue_entry m.draws c (typed_message m.draws text level ty))).1,
)

-- In failsafe mode only the error of `Marshal` comes back.
send_text_silent :
    (m : Moment) (s : Sdk) (c : ResilientClient) (x : Except MarshalError Str) (text : Str)
    (level ty : ℤ)
    → x ≡ ok text
    → c.config.failsafe_mode ≡ true
    → (send_text m s c x level ty).1 ≡ none
unfolding send_text send_log_with_entry_type
send_text_silent m s c (err e) text level ty x f = cc
send_text_silent m s c (ok t) text level ty x f =
    silent (enqueue_entry m.draws c (typed_message m.draws t level ty))
      (enqueue_entry_silent m.draws c (typed_message m.draws t level ty) f)
  where
    silent : (r : ResilientClient × Option SendError) → r.1 ≡ none → (sent s r).1 ≡ none
    silent (c, none) h = refl
    silent (c, some e) h = cc

module _ (render : List (Str × Value) → Str) (format : Time → Str) where
  -- No call changes the configuration of the client or the callbacks.
  pub perform-config :
      (m : Moment) (s : Sdk) (call : Call)
      → (config_of (perform render format m s call).0.client ≡ config_of s.client)
        × ((perform render format m s call).0.hooks ≡ s.hooks)
  unfolding send_payload
  perform-config m s call = kept (perform-Outcome render format m s call)
    where
      kept :
          {clean : Bool} {r : Sdk × Option SdkError}
          → Outcome render m s clean r
          → (config_of r.0.client ≡ config_of s.client) × (r.0.hooks ≡ s.hooks)
      kept (idle b e) = (ap (λ x. config_of x.0.client) e, ap (λ x. x.0.hooks) e)
      kept (offered c b p level h f e) =
          let (same, hooks) =
            send_text-config m (record s { breadcrumbs = b }) c (marshal render p) level (type_of p)
              h in
          (ap (λ x. config_of x.0.client) e ∙ same, ap (λ x. x.0.hooks) e ∙ hooks)

  perform_silent :
      (m : Moment) (s : Sdk) (call : Call)
      → failsafe (config_of s.client) ≡ true
      → writable s.hooks call ≡ true
      → (perform render format m s call).1 ≡ none
  unfolding send_payload marshal
  perform_silent m s call safe w = quiet (perform-Outcome render format m s call)
    where
      quiet :
          {r : Sdk × Option SdkError} → Outcome render m s (writable s.hooks call) r → r.1 ≡ none
      quiet (idle b e) = ap (λ x. x.1) e
      quiet (offered c b p level h f e) =
          ap (λ x. x.1) e
          ∙ send_text_silent m (record s { breadcrumbs = b }) c (marshal render p)
              (render (json_object p)) level (type_of p) (rw (f w) refl)
              (sym (ap (λ o. failsafe (config_of o)) h) ∙ safe)

  -- In failsafe mode, or without a client, no call of a history returns an error: neither those of
  -- logflux.go nor the end of a span nor those of a scope. A metric must be a finite number, and no
  -- callback set that may change it.
  pub errors_silent :
      (s : Sdk) (calls : List (Moment × Call))
      → failsafe (config_of s.client) ≡ true
      → All (λ call. writable s.hooks call.1 ≡ true) calls
      → All (λ e. e ≡ none) (errors render format s calls)
  unfolding errors
  errors_silent s [] safe w = tt
  errors_silent s ((m, call) ∷ calls) safe w =
      let (same, hooks) = perform-config m s call in
      (
        perform_silent m s call safe w.0,
        errors_silent (perform render format m s call).0 calls (ap failsafe same ∙ safe)
            (subst (λ h. All (λ call. writable h call.1 ≡ true) calls) (sym hooks) w.1),
      )
