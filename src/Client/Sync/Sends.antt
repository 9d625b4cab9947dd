-- ===== src/Client/Sync/Sends.antt =====
-- pkg/client/client.go: how the synchronous client sends, and what it makes of the answers.
use logflux_go_sdk.Prelude.{
  ℕ, ℤ, pos, eqb_ℤ, Bool, true, false, not, ◌&&◌, List, [], ◌∷◌, ◌++◌, Option, none, some,
  if◌then◌else◌, ltb, ◌==◌, length, Str, codes, str_eq, get_or_else, Except, ok, err,
}
use logflux_go_sdk.Models.{Time, LogEntry}
use logflux_go_sdk.Retry.Errors.{int_text}
use logflux_go_sdk.Crypto.{Primitives, CryptoError}
use logflux_go_sdk.Client.Validate.{EntryError, Clock, validate_entry}
use logflux_go_sdk.Client.Multipart.{MultipartBuilder, Part, build}
use logflux_go_sdk.Client.Resilient.Enqueue.{Message, entry_of}
use logflux_go_sdk.Client.Resilient.Sending.{hooked, collected}
use logflux_go_sdk.Client.Sync.{Client}

-- A response: the numbers of the rate limit as `strconv` reads them (none if missing or no number), the
-- Retry-After header (empty if missing), and the body up to the limit.
pub record Response : Type 0 where
  pub status_code : ℤ
  pub limit : Option ℤ
  pub remaining : Option ℤ
  pub reset : Option ℤ
  pub retry_after : Str
  pub body : Str

pub data Transport : Type 0 where
  no_request no_response : Str → Transport
  responded : Response → Transport

-- The `error` object of a response, as encoding/json reads it.
pub record ErrorBody : Type 0 where
  pub code : Str
  pub message : Str
  pub details : Str

pub data SyncError : Type 0 where
  invalid : EntryError → SyncError
  batch_too_large : SyncError
  not_built : CryptoError → SyncError
  not_requested : Str → SyncError
  ingestor_unavailable : Str → SyncError
  ingest_failed : Str → SyncError

unfoldable pub update_rate_limit_info : Client → Response → Client
update_rate_limit_info c r = record c {
  rate_limit_limit = get_or_else r.limit c.rate_limit_limit;
  rate_limit_remaining = get_or_else r.remaining c.rate_limit_remaining;
  rate_limit_reset = get_or_else r.reset c.rate_limit_reset;
}

abbrev pub appended : Bool → Str → Str
appended true text = text
appended false text = codes ""

-- `decoded` is the error object, none if the body is no JSON.
unfoldable pub parse_error_response : ℤ → Str → Str → Option ErrorBody → Str
parse_error_response status body retry_after none =
    codes "ingest failed with status " ++ (int_text status ++ (codes ": " ++ body))
parse_error_response status body retry_after (some e) =
    if str_eq e.code []
    then codes "ingest failed with status " ++ (int_text status ++ (codes ": " ++ body))
    else (codes "ingest failed ["
        ++ (e.code
            ++ (codes "]: "
                ++ (e.message
                    ++ (appended (not (str_eq e.details [])) (codes " - " ++ e.details)
                        ++ appended (eqb_ℤ status (pos 429) && not (str_eq retry_after []))
                            (codes " (retry after " ++ (retry_after ++ codes " seconds)")))))))

-- The loop of `SendLogBatch` over the messages, to the first one that is invalid.
unfoldable pub collect_entries : Clock → Client → List Message → Except EntryError (List LogEntry)
unfolding entry_of
collect_entries clock c [] = ok []
collect_entries clock c (m ∷ ms) =
    let entry = entry_of c.node m in
    let rest = collect_entries clock c ms in
    collected (validate_entry clock entry) (hooked c.hook entry) rest

abbrev pub builder_of : Client → MultipartBuilder
builder_of c = record {
  encryptor = c.encryptor;
  key_uuid = c.key_uuid;
  enable_compression = c.enable_compression;
}

-- `draws` is the random source for the nonces, `format` the text of a time, `decode` the decoder of
-- error bodies.
module _ (p : Primitives) (format : Time → Str) (decode : Str → Option ErrorBody) where
  unfoldable pub do_ingest : Client → Transport → Client × Option SyncError
  unfolding update_rate_limit_info parse_error_response
  do_ingest c (no_request text) = (c, some (not_requested text))
  do_ingest c (no_response text) = (c, some (ingestor_unavailable text))
  do_ingest c (responded r) =
      let c' = update_rate_limit_info c r in
      if not (eqb_ℤ r.status_code (pos 200))
        && not (eqb_ℤ r.status_code (pos 201))
        && not (eqb_ℤ r.status_code (pos 202))
      then (
        c',
        some (
            ingest_failed
              (parse_error_response r.status_code r.body r.retry_after (decode r.body))),
      )
      else (c', none)

  unfoldable pub built :
      Client → (List Part → Transport) → Except CryptoError (List Part) → Client × Option SyncError
  unfolding do_ingest
  built c http (err e) = (c, some (not_built e))
  built c http (ok parts) = do_ingest c (http parts)

  unfoldable pub send_entries :
      Client
      → (ℕ → Option Str)
      → (List Part → Transport)
      → List LogEntry
      → Client × Option SyncError
  unfolding built
  send_entries c draws http entries = built c http (build p format (builder_of c) draws 0 entries)

  abbrev pub unless_empty :
      Client
      → List LogEntry
      → (List LogEntry → Client × Option SyncError)
      → Client × Option SyncError
  unless_empty c [] send = (c, none)
  unless_empty c (entry ∷ entries) send = send (entry ∷ entries)

  abbrev pub given :
      Client → Option LogEntry → (LogEntry → Client × Option SyncError) → Client × Option SyncError
  given c none send = (c, none)
  given c (some entry) send = send entry

  abbrev pub checked :
      Client → Option EntryError → Client × Option SyncError → Client × Option SyncError
  checked c (some e) r = (c, some (invalid e))
  checked c none r = r

  -- The entry is validated as it comes; type 0 is not replaced.
  unfoldable pub send_entry :
      Client
      → Clock
      → (ℕ → Option Str)
      → (List Part → Transport)
      → LogEntry
      → Client × Option SyncError
  unfolding send_entries
  send_entry c clock draws http entry =
      let named = if length entry.node == 0 then record entry { node = c.node } else entry in
      checked c (validate_entry clock entry)
        (given c (hooked c.hook named) (λ entry. send_entries c draws http (entry ∷ [])))

  abbrev pub with_collected :
      Client
      → Except EntryError (List LogEntry)
      → (List LogEntry → Client × Option SyncError)
      → Client × Option SyncError
  with_collected c (err e) send = (c, some (invalid e))
  with_collected c (ok entries) send = unless_empty c entries send

  unfoldable pub send_log_batch :
      Client
      → Clock
      → (ℕ → Option Str)
      → (List Part → Transport)
      → List Message
      → Client × Option SyncError
  unfolding send_entries collect_entries
  send_log_batch c clock draws http messages =
      if length messages == 0
      then (c, none)
      else if ltb 1000 (length messages)
      then (c, some batch_too_large)
      else with_collected c (collect_entries clock c messages) (send_entries c draws http)
