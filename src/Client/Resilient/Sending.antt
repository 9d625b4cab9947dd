-- ===== src/Client/Resilient/Sending.antt =====
-- pkg/client/resilient_client.go: what a response and a failed delivery change, and the direct batch.
-- Headers are given as `strconv` reads them: none if missing, empty or no number.
use logflux_go_sdk.Prelude.{
  ℕ, ◌+◌, ◌-◌, ◌^◌, ℤ, pos, negsuc, eqb_ℤ, Bool, true, false, not, ◌&&◌, List, [], ◌∷◌, ◌++◌,
  Option, none, some, if◌then◌else◌, Str, codes, length, take, Except, ok, err, ltb, ◌==◌,
  get_or_else,
}
use logflux_go_sdk.Models.{Time, LogEntry, Category, events, traces, audit, entry_type_category}
use logflux_go_sdk.Crypto.{Primitives, CryptoError}
use logflux_go_sdk.Retry.Errors.{
  GoError, http, plain, wrap, is_quota_exceeded, is_rate_limited, new_http_error_from_response,
  error_text, seconds_duration,
}
use logflux_go_sdk.Client.Validate.{EntryError, Clock, validate_entry}
use logflux_go_sdk.Client.Multipart.{MultipartBuilder, Part, build}
use logflux_go_sdk.Client.Resilient.State.{
  DropReason, ResilientClient, SendError, client_closed, batch_too_large, invalid, failed,
  record_drop, record_error, add_int64, network_error, send_error, rate_limited, quota_exceeded,
}
use logflux_go_sdk.Client.Resilient.Enqueue.{Message, entry_of, refuse}

pub record Response : Type 0 where
  pub status_code : ℤ
  pub retry_after : Option ℤ
  pub limit : Option ℤ
  pub remaining : Option ℤ
  pub reset : Option ℤ
  pub body : Str

unfoldable pub update_rate_limit_info : ResilientClient → Response → ResilientClient
update_rate_limit_info c r = record c {
  rate_limit_limit = get_or_else r.limit c.rate_limit_limit;
  rate_limit_remaining = get_or_else r.remaining c.rate_limit_remaining;
  rate_limit_reset = get_or_else r.reset c.rate_limit_reset;
}

-- `t.Add(d)`; a time before the zero time is out of the model.
abbrev pub add_time : Time → ℤ → Time
add_time t (pos n) = t + n
add_time t (negsuc n) = t - (n + 1)

unfoldable pub max_error_response_size : ℕ
max_error_response_size = 2 ^ 20

abbrev pub category_eq : Category → Category → Bool
category_eq events events = true
category_eq traces traces = true
category_eq audit audit = true
category_eq _ _ = false

-- `quotaBlocked[category] = true`
unfoldable pub block_category : ResilientClient → Category → ResilientClient
block_category c category = record c {
  quota_blocked = λ k. if category_eq category k then true else c.quota_blocked k;
}

unfoldable pub block_first : ResilientClient → List LogEntry → ResilientClient
unfolding block_category
block_first c [] = c
block_first c (entry ∷ entries) = block_category c (entry_type_category entry.entry_type)

unfoldable pub pause : ResilientClient → Time → Response → ResilientClient
pause c now r = record c {
  rate_limit_pause_until = add_time now (seconds_duration (get_or_else r.retry_after (pos 60)));
}

unfoldable pub response_error : Response → GoError
response_error r =
    http (
      new_http_error_from_response r.status_code r.retry_after
        (take max_error_response_size r.body))

-- `sendMultipart` from the response on.
unfoldable pub handle_response :
    ResilientClient → Time → List LogEntry → Response → ResilientClient × Option GoError
unfolding update_rate_limit_info pause block_first response_error
handle_response c now entries r =
    let c' = update_rate_limit_info c r in
    if eqb_ℤ r.status_code (pos 429)
    then (pause c' now r, some (response_error r))
    else if eqb_ℤ r.status_code (pos 507)
    then (block_first c' entries, some (response_error r))
    else if not (eqb_ℤ r.status_code (pos 200))
        && not (eqb_ℤ r.status_code (pos 201))
        && not (eqb_ℤ r.status_code (pos 202))
    then (c', some (response_error r))
    else (c', none)

-- How the request of a body goes: no request, no response (each with the text of its error), or a
-- response.
pub data Transport : Type 0 where
  no_request no_response : Str → Transport
  responded : Response → Transport

unfoldable pub transported :
    ResilientClient → Time → List LogEntry → Transport → ResilientClient × Option GoError
unfolding handle_response
transported c now entries (no_request text) =
    (c, some (wrap (codes "failed to create request: " ++ text) (plain text)))
transported c now entries (no_response text) =
    (c, some (wrap (codes "failed to send request: " ++ text) (plain text)))
transported c now entries (responded r) = handle_response c now entries r

unfoldable pub builder_of : ResilientClient → MultipartBuilder
builder_of c = record {
  encryptor = c.encryptor;
  key_uuid = c.key_uuid;
  enable_compression = c.config.enable_compression;
}

-- `build_text` is the text of an error of the multipart builder; `draws` is the random source; the
-- transport answers the body's parts.
module _ (p : Primitives) (format : Time → Str) (build_text : CryptoError → Str) where
  unfoldable pub built :
      ResilientClient
      → Time
      → List LogEntry
      → (List Part → Transport)
      → Except CryptoError (List Part)
      → ResilientClient × Option GoError
  unfolding transported
  built c now entries answer (ok parts) = transported c now entries (answer parts)
  built c now entries answer (err e) = (c, some (wrap (build_text e) (plain (build_text e))))

  unfoldable pub send_multipart :
      ResilientClient
      → Time
      → (ℕ → Option Str)
      → List LogEntry
      → (List Part → Transport)
      → ResilientClient × Option GoError
  unfolding built builder_of
  send_multipart c now draws entries answer =
      built c now entries answer (build p format (builder_of c) draws 0 entries)

module _ (duration_text : ℤ → Str) where
  unfoldable pub drop_reason_of : GoError → DropReason
  drop_reason_of (http e) =
      if is_quota_exceeded e
      then quota_exceeded
      else if is_rate_limited e
      then rate_limited
      else send_error
  drop_reason_of _ = network_error

  unfoldable pub handle_send_error : ResilientClient → GoError → ℕ → ResilientClient
  unfolding drop_reason_of
  handle_send_error c e count =
      record_error (record_drop c (drop_reason_of e) count) (error_text duration_text e)

  -- `SendLogBatch` once `Retry` has returned, on the client as the attempts left it.
  unfoldable pub finish_batch :
      ResilientClient → Time → ℕ → Option GoError → ResilientClient × Option SendError
  finish_batch c now count none =
      (record c { total_sent = add_int64 c.total_sent count; last_send_time = now }, none)
  finish_batch c now count (some e) =
      refuse (record_error (record_drop c send_error count) (error_text duration_text e)) (failed e)

-- `continue` for a message that the hook drops.
abbrev pub hooked : Option (LogEntry → Option LogEntry) → LogEntry → Option LogEntry
hooked none entry = some entry
hooked (some hook) entry = hook entry

abbrev pub cons_given : Option LogEntry → List LogEntry → List LogEntry
cons_given none entries = entries
cons_given (some entry) entries = entry ∷ entries

abbrev pub collected :
    Option EntryError
    → Option LogEntry
    → Except EntryError (List LogEntry)
    → Except EntryError (List LogEntry)
collected (some e) given rest = err e
collected none given (err e) = err e
collected none given (ok entries) = ok (cons_given given entries)

-- The loop of `SendLogBatch`: the entries to send, or the first message that is invalid.
unfoldable pub collect : Clock → ResilientClient → List Message → Except EntryError (List LogEntry)
unfolding entry_of
collect clock c [] = ok []
collect clock c (m ∷ ms) =
    let entry = entry_of c.config.node m in
    let rest = collect clock c ms in
    collected (validate_entry clock entry) (hooked c.config.hook entry) rest

-- What `SendLogBatch` does before it sends: return, or go on with some entries.
pub data BatchStart : Type 0 where
  returns : Option SendError → BatchStart
  sends : List LogEntry → BatchStart

abbrev pub start_with : Except EntryError (List LogEntry) → BatchStart
start_with (err e) = returns (some (invalid e))
start_with (ok []) = returns none
start_with (ok (entry ∷ entries)) = sends (entry ∷ entries)

unfoldable pub start_batch : Clock → ResilientClient → List Message → BatchStart
unfolding collect
start_batch clock c messages =
    if c.closed
    then returns (refuse c client_closed).1
    else if length messages == 0
    then returns none
    else if ltb 1000 (length messages)
    then returns (some batch_too_large)
    else start_with (collect clock c messages)
