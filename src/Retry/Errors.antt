-- ===== src/Retry/Errors.antt =====
-- pkg/retry/retry.go: HTTP errors and the errors that are worth a retry. Durations are nanoseconds.
use logflux_go_sdk.Prelude.{
  ℕ, ◌+◌, ◌-◌, ◌%◌, ◌^◌, ltb, ◌*◌, ℤ, pos, negsuc, ltb_ℤ, eqb_ℤ, Bool, false, ◌||◌, List, [], ◌∷◌,
  ◌++◌, Option, none, some, if◌then◌else◌, Str, codes, itoa, contains, to_lower,
}

pub record HttpError : Type 0 where
  pub status_code : ℤ
  pub message : Str
  pub retry_after : ℤ

-- A Go error: `*HTTPError`, one made by `errors.New` or `fmt.Errorf` without `%w`, or one made with
-- `%w`, which keeps its text and what it wraps.
pub data GoError : Type 0 where
  http : HttpError → GoError
  plain : Str → GoError
  wrap : Str → GoError → GoError

-- The int64 with the bits `m`, for m below 2 ^ 64.
unfoldable pub signed : ℕ → ℤ
signed m = if ltb m (2 ^ 63) then pos m else negsuc (2 ^ 64 - m - 1)

-- `time.Duration(seconds) * time.Second`, in int64.
unfoldable pub seconds_duration : ℤ → ℤ
unfolding signed
seconds_duration (pos n) = signed (n * 1_000_000_000 % 2 ^ 64)
seconds_duration (negsuc n) = signed ((2 ^ 64 - (n + 1) * 1_000_000_000 % 2 ^ 64) % 2 ^ 64)

-- `header` is the Retry-After header as `strconv.Atoi` reads it: none if it is missing, empty or no
-- number.
unfoldable pub new_http_error_from_response : ℤ → Option ℤ → Str → HttpError
new_http_error_from_response status none message = record {
  status_code = status;
  message = message;
  retry_after = pos 0;
}
new_http_error_from_response status (some seconds) message = record {
  status_code = status;
  message = message;
  retry_after = seconds_duration seconds;
}

unfoldable pub is_quota_exceeded : HttpError → Bool
is_quota_exceeded e = eqb_ℤ e.status_code (pos 507)

unfoldable pub is_rate_limited : HttpError → Bool
is_rate_limited e = eqb_ℤ e.status_code (pos 429)

-- `%d`
abbrev pub int_text : ℤ → Str
int_text (pos n) = itoa n
int_text (negsuc n) = codes "-" ++ itoa (n + 1)

module _ (duration_text : ℤ → Str) where
  unfoldable pub http_error_text : HttpError → Str
  http_error_text e =
      let short = codes "HTTP " ++ int_text e.status_code ++ codes ": " ++ e.message in
      if ltb_ℤ (pos 0) e.retry_after
      then short ++ codes " (retry after " ++ duration_text e.retry_after ++ codes ")"
      else short

  unfoldable pub error_text : GoError → Str
  unfolding http_error_text
  error_text (http e) = http_error_text e
  error_text (plain s) = s
  error_text (wrap s e) = s

keywords : List Str
keywords =
    codes "connection refused"
    ∷ codes "timeout"
    ∷ codes "network error"
    ∷ codes "eof"
    ∷ codes "broken pipe"
    ∷ codes "connection reset"
    ∷ codes "no route to host"
    ∷ []

any_in : Str → List Str → Bool
any_in s [] = false
any_in s (k ∷ ks) = contains s k || any_in s ks

unfoldable pub retryable_text : Str → Bool
unfolding keywords any_in
retryable_text s = any_in (to_lower s) keywords

unfoldable pub retryable_status : ℤ → Bool
retryable_status s =
    eqb_ℤ s (pos 429)
    || eqb_ℤ s (pos 500)
    || eqb_ℤ s (pos 502)
    || eqb_ℤ s (pos 503)
    || eqb_ℤ s (pos 504)

unfoldable pub is_retryable : GoError → Bool
is_retryable (http e) = retryable_status e.status_code
is_retryable (plain s) = retryable_text s
is_retryable (wrap s e) = retryable_text s
