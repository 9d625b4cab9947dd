-- ===== src/Client/Resilient/Tests.antt =====
-- The theorems about pkg/client/resilient_client.go at concrete inputs.
use logflux_go_sdk.Prelude.{◌≡◌, refl, ◌≢◌, ℤ, pos, [], ◌∷◌, none, some}
use logflux_go_sdk.Retry.Errors.{
  GoError, http, error_text, is_retryable, is_rate_limited, retryable_status,
}
use logflux_go_sdk.Retry.{Round, done, retry, exhausted}
use logflux_go_sdk.Client.Resilient.State.{record_drop, record_error, rate_limited, network_error}
use logflux_go_sdk.Client.Resilient.Enqueue.{enqueue_entry}
use logflux_go_sdk.Client.Resilient.Sending.{drop_reason_of, handle_send_error}
use logflux_go_sdk.Client.Resilient.Accounting.{AddsUp}
use logflux_go_sdk.Client.Resilient.Meant.{IsOf}
use logflux_go_sdk.Client.Resilient.Verdict.{Verdict, enqueue_entry-Verdict}
use logflux_go_sdk.Models.{LogEntry}
use logflux_go_sdk.Client.Resilient.Admission.{Grew, enqueue_entry-Grew}
use logflux_go_sdk.Client.Resilient.Reasons.{retry_never_rate_limited, exhausted_counts_network}
use logflux_go_sdk.Client.Resilient.Samples.{fresh, draws, started, whole, once}

fresh-AddsUp : AddsUp fresh
fresh-AddsUp = refl

enqueue_entry-Verdict_example :
    (input : LogEntry) × IsOf fresh.config.node started input
    × Verdict draws fresh input (enqueue_entry draws fresh started)
enqueue_entry-Verdict_example = enqueue_entry-Verdict draws fresh started refl

enqueue_entry-Grew_example : Grew draws fresh started (enqueue_entry draws fresh started).0
enqueue_entry-Grew_example = enqueue_entry-Grew draws fresh started refl

abbrev status : ℤ → GoError
status s = http (record { status_code = s; message = []; retry_after = pos 0 })

abbrev answered : ℤ → Round whole
answered s = record { outcome = some (status s); random = 0; cancelled = none }

bad_request : retry whole once (answered (pos 400) ∷ []) ≡ done (some (status (pos 400)))
unfolding retry is_retryable retryable_status is_rate_limited
bad_request = refl

-- A limited attempt and then a bad request.
limited_then_bad :
    retry whole once (answered (pos 429) ∷ answered (pos 400) ∷ []) ≡ done (some (status (pos 400)))
unfolding retry is_retryable retryable_status is_rate_limited
limited_then_bad = refl

retry_never_rate_limited_example :
    drop_reason_of whole.duration_text (status (pos 400)) ≢ rate_limited
retry_never_rate_limited_example =
    retry_never_rate_limited whole once (answered (pos 429) ∷ answered (pos 400) ∷ [])
      (status (pos 400)) limited_then_bad

abbrev gave_up : GoError
gave_up = exhausted whole 1 (some (status (pos 503)))

both_503 : retry whole once (answered (pos 503) ∷ answered (pos 503) ∷ []) ≡ done (some gave_up)
unfolding retry is_retryable retryable_status is_rate_limited
both_503 = refl

exhausted_counts_network_example :
    handle_send_error whole.duration_text fresh gave_up 3
    ≡ record_error (record_drop fresh network_error 3) (error_text whole.duration_text gave_up)
unfolding is_retryable retryable_status is_rate_limited
exhausted_counts_network_example =
    exhausted_counts_network whole once (answered (pos 503) ∷ []) (answered (pos 503)) gave_up fresh
      3 refl ((status (pos 503), refl, refl, refl, refl), tt)
      (status (pos 503), refl, refl, refl, refl) both_503
