-- ===== src/Retry/Delay.antt =====
-- pkg/retry/retry.go: how long a round waits.
use logflux_go_sdk.Prelude.{
  ℕ, ◌≡◌, ap, if◌then◌else◌, ℤ, pos, ◌≤ℤ◌, ◌<ℤ◌, true, false, some, arith, Bool-cases, inl, inr,
}
use logflux_go_sdk.Retry.Errors.{HttpError, http, is_rate_limited}
use logflux_go_sdk.Retry.{
  Runtime, Config, capped_delay, calculate_delay, new_retryer, rate_limit_delay, decide,
  decide_error, decide_http, wait,
}
use logflux_go_sdk.Retry.Loop.Limits.{limit_retryable}

-- What Go's conversions promise for the integers from 0 to 2 ^ 53, which a float64 holds exactly: they
-- come back, their floats are in order, and between them the conversion to an integer, which
-- cuts off the fraction, keeps the order. Out of range the conversion may give anything.
pub record Converts (rt : Runtime) : Type 0 where
  pub exact : (d : ℤ) → pos 0 ≤ℤ d → d ≤ℤ pos 9_007_199_254_740_992 → rt.to_int (rt.of_int d) ≡ d
  pub ordered :
      (d e : ℤ)
      → pos 0 ≤ℤ d
      → d ≤ℤ e
      → e ≤ℤ pos 9_007_199_254_740_992
      → rt.le (rt.of_int d) (rt.of_int e) ≡ true
  pub keeps :
      (x y : rt.Float)
      → rt.le (rt.of_int (pos 0)) x ≡ true
      → rt.le x y ≡ true
      → rt.le y (rt.of_int (pos 9_007_199_254_740_992)) ≡ true
      → rt.to_int x ≤ℤ rt.to_int y

jitterless :
    (rt : Runtime) (c : Config rt) (attempt : ℕ) (random : rt.Float)
    → c.jitter_enabled ≡ false
    → calculate_delay rt c attempt random ≡ rt.to_int (capped_delay rt c attempt)
unfolding calculate_delay
jitterless rt c attempt random j =
    ap
      (λ b. rt.to_int (
        if b
        then rt.times (capped_delay rt c attempt) (rt.add rt.one (rt.times random rt.quarter))
        else capped_delay rt c attempt))
      j

module _ (rt : Runtime) (conv : Converts rt) where
  -- Without jitter no delay is longer than `MaxDelay`, for a `MaxDelay` from 0 to 2 ^ 53, which a
  -- float64 holds exactly, and a product `initial_delay * backoff_factor ^ attempt` that is a number and
  -- not negative: if it is not above `MaxDelay`, it is from 0 to that.
  pub calculate_delay-le :
      (c : Config rt) (attempt : ℕ) (random : rt.Float)
      → c.jitter_enabled ≡ false
      → pos 0 ≤ℤ c.max_delay
      → c.max_delay ≤ℤ pos 9_007_199_254_740_992
      → (let product =
            rt.times
              (rt.of_int c.initial_delay)
              (rt.pow c.backoff_factor (rt.of_int (pos attempt))) in
          rt.lt (rt.of_int c.max_delay) product ≡ false
          → (rt.le (rt.of_int (pos 0)) product ≡ true)
            × (rt.le product (rt.of_int c.max_delay) ≡ true))
      → calculate_delay rt c attempt random ≤ℤ c.max_delay
  unfolding capped_delay
  calculate_delay-le c attempt random j lo hi number =
      let product =
        rt.times (rt.of_int c.initial_delay) (rt.pow c.backoff_factor (rt.of_int (pos attempt))) in
      rw (jitterless rt c attempt random j)
        (elim (Bool-cases (rt.lt (rt.of_int c.max_delay) product)) [
          | inl above ↦ rw (above, conv.exact c.max_delay lo hi) (omega arith)
          | inr below ↦ rw below (
              rw (conv.exact c.max_delay lo hi) at (
                conv.keeps product (rt.of_int c.max_delay) (number below).0 (number below).1
                  (conv.ordered c.max_delay (pos 9_007_199_254_740_992) lo hi (omega arith))))
        ])

-- The configuration that a retryer keeps has positive delays, whatever it was made from.
new_retryer_delays :
    (rt : Runtime) (c : Config rt)
    → (pos 0 <ℤ (new_retryer rt c).initial_delay) × (pos 0 <ℤ (new_retryer rt c).max_delay)
unfolding new_retryer
new_retryer_delays rt c = ground arith

-- After a rate limit the loop waits for a positive time before it calls `fn` again: the server's time
-- if that is positive, else a minute; and the attempt counter stays.
decide_rate_limited :
    (rt : Runtime) (c : Config rt) (attempt : ℕ) (random : rt.Float) (e : HttpError)
    → is_rate_limited e ≡ true
    → (decide rt c attempt random (some (http e)) ≡ wait (rate_limit_delay e) attempt)
      × (pos 0 <ℤ rate_limit_delay e)
unfolding decide decide_error decide_http rate_limit_delay
decide_rate_limited rt c attempt random e h = (rw (limit_retryable (http e) h, h), ground arith)
