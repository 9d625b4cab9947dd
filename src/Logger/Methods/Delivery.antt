-- ===== src/Logger/Methods/Delivery.antt =====
-- pkg/logger/logger.go: what a call that returns nil has delivered.
use logflux_go_sdk.Prelude.{◌≡◌, refl, ℤ, pos, [], ◌∷◌, none, Str}
use logflux_go_sdk.Models.{Time, LogEntry}
use logflux_go_sdk.Crypto.{IsSound}
use logflux_go_sdk.Client.Validate.{validate_entry}
use logflux_go_sdk.Client.Sync.Delivery.{IsDelivered, send_entry-IsDelivered}
use logflux_go_sdk.Client.Sync.Methods.{
  World, send_to, log_entry, send_log, send_log_with_timestamp,
}
use logflux_go_sdk.Client.Sync.Methods
use logflux_go_sdk.Logger.{format_message}
use logflux_go_sdk.Logger.Methods.{
  Logger, Call, call_log, call_info, call_warn, call_error, call_debug, call_fatal,
  call_log_with_timestamp, perform, returns, returning, with_client,
}

-- The severity of a call, from 1 (the highest) to 8.
abbrev pub severity : Call → ℤ
severity (call_error m) = pos 4
severity (call_warn m) = pos 5
severity (call_fatal m) = pos 3
severity (call_debug m) = pos 8
severity _ = pos 7

abbrev pub text : Call → Str
text (call_log m) = m
text (call_info m) = m
text (call_warn m) = m
text (call_error m) = m
text (call_debug m) = m
text (call_fatal m) = m
text (call_log_with_timestamp m _) = m

abbrev pub time : World → Call → Time
time w (call_log_with_timestamp _ t) = t
time w _ = w.clock.now

-- What is to reach the server.
abbrev pub Meant : World → Logger → Call → LogEntry → Type 0
Meant w l call entry =
    (entry.message ≡ format_message l.prefix (text call))
    × (entry.level ≡ severity call)
    × (entry.timestamp ≡ time w call)
    × (entry.entry_type ≡ pos 1)
    × (entry.node ≡ l.client.node)

abbrev pub Delivered : World → Logger → Call → Type 0
Delivered w l call =
    (entry : LogEntry) × Meant w l call entry
    × (validate_entry w.clock entry ≡ none)
    × IsDelivered w.primitives w.format w.decode l.client w.http (entry ∷ [])

module _ (w : World) (sound : IsSound w.primitives) (l : Logger)
    (no_hook : l.client.hook ≡ none) where
  sent :
      (call : Call) (entry : LogEntry)
      → Meant w l call entry
      → (returning (with_client l (send_to w l.client entry))).1 ≡ returns none
      → Delivered w l call
  unfolding send_to
  sent call entry m h =
      let k =
        send_entry-IsDelivered w.primitives w.format w.decode sound l.client w.clock w.draws w.http
          entry no_hook m.4 (cc) in
      (entry, m, k.0, k.1)

  abbrev entry_for : Call → LogEntry
  entry_for call =
      log_entry l.client (format_message l.prefix (text call)) (time w call) (severity call) (pos 1)
        none

  -- A call of a method of `Logger` that returns nil, without a `BeforeSend` callback: one request carried
  -- one entry, so that a receiver with the key gets its text back, and the server accepted it. The text
  -- is that of the call under the prefix, with the time and the severity of the call.
  pub perform-Delivered : (call : Call) → (perform w l call).1 ≡ returns none → Delivered w l call
  unfolding perform send_log send_log_with_timestamp Methods.info Methods.warn Methods.error
      Methods.debug send_to
  perform-Delivered (call_log m) h =
      sent (call_log m) (entry_for (call_log m)) (refl, refl, refl, refl, refl) h
  perform-Delivered (call_info m) h =
      sent (call_info m) (entry_for (call_info m)) (refl, refl, refl, refl, refl) h
  perform-Delivered (call_warn m) h =
      sent (call_warn m) (entry_for (call_warn m)) (refl, refl, refl, refl, refl) h
  perform-Delivered (call_error m) h =
      sent (call_error m) (entry_for (call_error m)) (refl, refl, refl, refl, refl) h
  perform-Delivered (call_debug m) h =
      sent (call_debug m) (entry_for (call_debug m)) (refl, refl, refl, refl, refl) h
  perform-Delivered (call_fatal m) h = cc
  perform-Delivered (call_log_with_timestamp m t) h =
      sent (call_log_with_timestamp m t) (entry_for (call_log_with_timestamp m t))
        (refl, refl, refl, refl, refl) h
