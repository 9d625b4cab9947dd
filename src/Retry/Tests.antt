-- ===== src/Retry/Tests.antt =====
-- Tests of pkg/retry/retry.go, and its theorems at concrete inputs.
use logflux_go_sdk.Prelude.{
  itoa, ◌++◌, zero, suc, str_eq, ℕ, ◌+◌, ◌-◌, ◌≤◌, ◌↔◌, length, All, ◌*◌, ◌^◌, ◌≡◌, refl, ℤ, pos,
  negsuc, pos_part, ◌≤ℤ◌, true, false, [], ◌∷◌, Option, none, some, arith, codes, ltb, leb, ◌<◌,
  contains, to_lower, has_prefix,
}
use logflux_go_sdk.Retry.Errors.{
  GoError, http, plain, wrap, error_text, is_retryable, is_rate_limited, retryable_status,
  retryable_text, seconds_duration,
}
use logflux_go_sdk.Retry.{Runtime, Config, Round, done, retry, calculate_delay}
use logflux_go_sdk.Retry.Loop.{counted, retry_ends}
use logflux_go_sdk.Retry.Loop.Limits.{unlimited, retry-unlimited, retry-exhausted}
use logflux_go_sdk.Retry.Readiness.{Attempt, wait_for_server_readiness}
use logflux_go_sdk.Retry.Readiness.Outcome.{Ready, later, readiness_outcome}
use logflux_go_sdk.Retry.Delay.{Converts, calculate_delay-le}

-- Floats that are whole numbers, with a quarter cut to 0.
abbrev whole : Runtime
whole = record {
  Float = ℕ;
  of_int = pos_part;
  to_int = pos;
  times = λ x y. x * y;
  pow = λ x y. x ^ y;
  add = λ x y. x + y;
  one = 1;
  two = 2;
  quarter = 0;
  lt = ltb;
  le = leb;
  duration_text = λ d. codes "1m0s";
}

abbrev status : ℤ → GoError
status s = http (record { status_code = s; message = []; retry_after = pos 0 })

abbrev round : Option GoError → Round whole
round o = record { outcome = o; random = 0; cancelled = none }

abbrev broken : Round whole
broken = round (some (status (pos 503)))

abbrev limited : Round whole
limited = round (some (status (pos 429)))

abbrev once : Config whole
once = record {
  max_retries = pos 1;
  initial_delay = pos 5;
  max_delay = pos 8;
  backoff_factor = 2;
  jitter_enabled = false;
  resilient_mode = false;
  health_check_url = [];
  health_check_timeout = pos 0;
  health_check_retries = pos 0;
}

second_try : retry whole once (broken ∷ limited ∷ round none ∷ []) ≡ done none
unfolding retry is_retryable retryable_status is_rate_limited
second_try = refl

bad_request :
    retry whole once (round (some (status (pos 400))) ∷ []) ≡ done (some (status (pos 400)))
unfolding retry is_retryable retryable_status is_rate_limited
bad_request = refl

network :
    (is_retryable (plain (codes "dial tcp: Connection Refused")) ≡ true)
    × (is_retryable (plain (codes "bad certificate")) ≡ false)
unfolding is_retryable retryable_text contains to_lower has_prefix
network = (refl, refl)

overflowing : seconds_duration (pos 9_300_000_000) ≡ negsuc 9_146_744_073_709_551_615
unfolding seconds_duration
overflowing = refl

two_counted : 1 < counted whole (broken ∷ limited ∷ broken ∷ [])
unfolding counted is_rate_limited
two_counted = omega arith

retry_ends_example :
    (res : Option GoError) × (retry whole once (broken ∷ limited ∷ broken ∷ []) ≡ done res)
retry_ends_example = retry_ends whole once 1 (broken ∷ limited ∷ broken ∷ []) refl two_counted

retry-unlimited_example :
    retry whole once (unlimited whole (broken ∷ limited ∷ broken ∷ []))
    ≡ retry whole once (broken ∷ limited ∷ broken ∷ [])
retry-unlimited_example = retry-unlimited whole once (broken ∷ limited ∷ broken ∷ [])

retry-exhausted_example :
    retry whole once (broken ∷ broken ∷ [])
    ≡ done (
        some (
          wrap
            (codes "retry failed after "
              ++ itoa 1
              ++ codes " attempts: "
              ++ error_text whole.duration_text (status (pos 503)))
            (status (pos 503))))
unfolding is_retryable retryable_status is_rate_limited
retry-exhausted_example =
    retry-exhausted whole once (broken ∷ []) broken refl
      ((status (pos 503), refl, refl, refl, refl), tt) (status (pos 503), refl, refl, refl, refl)

whole-Converts : Converts whole
whole-Converts = record {
  exact = λ d lo hi. whole_exact d lo;
  ordered = λ d e lo h hi. whole_ordered d e lo h;
  keeps = λ x y h0 h h1. ground arith;
}
  where
    whole_exact : (d : ℤ) → pos 0 ≤ℤ d → pos (pos_part d) ≡ d
    whole_exact (pos n) h = refl
    whole_exact (negsuc n) h = absurd (omega arith)

    whole_ordered : (d e : ℤ) → pos 0 ≤ℤ d → d ≤ℤ e → leb (pos_part d) (pos_part e) ≡ true
    whole_ordered (pos m) (pos n) h k = ground arith
    whole_ordered (pos m) (negsuc n) h k = absurd (omega arith)
    whole_ordered (negsuc m) e h k = absurd (omega arith)

calculate_delay-le_example : calculate_delay whole once 3 0 ≤ℤ pos 8
calculate_delay-le_example =
    calculate_delay-le whole whole-Converts once 3 0 refl (omega arith) (omega arith) (λ h. cc)

abbrev answer : Option ℤ → Attempt
answer s = record { done_before = none; request_error = none; status = s; done_waiting = none }

-- No answer, then 503, then 200.
abbrev recovering : ℕ → Attempt
recovering zero = answer none
recovering (suc zero) = answer (some (pos 503))
recovering _ = answer (some (pos 200))

abbrev watched : Config whole
watched = record once {
  resilient_mode = true;
  health_check_url = codes "/health";
  health_check_retries = pos 4;
}

recovered :
    wait_for_server_readiness whole watched recovering
    ≡ record { error = none; requests = 3; waits = pos 5 ∷ pos 8 ∷ [] }
unfolding wait_for_server_readiness str_eq
recovered = refl

readiness_outcome_example :
    (let r = wait_for_server_readiness whole watched recovering in
      (r.error ≡ none ↔ Ready whole watched recovering 0 4)
      × (r.requests ≤ 4)
      × (length r.waits ≤ 4 - 1)
      × All (λ d. d ≤ℤ pos 8) (later r.waits))
unfolding str_eq
readiness_outcome_example = readiness_outcome whole watched recovering 4 refl refl refl
