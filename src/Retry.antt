-- ===== src/Retry.antt =====
-- pkg/retry/retry.go: the retryer's configuration, its delays, and the retry loop over a script of
-- what each round meets. The readiness probe before a round in resilient mode changes no state and
-- its result is dropped, so the loop leaves it out; Retry.Readiness models it.
pub mod Errors
pub mod Loop
pub mod Delay
pub mod Readiness
mod Tests
use logflux_go_sdk.Prelude.{
  ℕ, suc, ◌+◌, ◌*◌, ℤ, pos, leb_ℤ, ltb_ℤ, eqb_ℤ, Bool, true, false, not, ◌&&◌, ◌||◌, List, [], ◌∷◌,
  ◌++◌, Option, none, some, if◌then◌else◌, Str, codes, itoa, neg_part,
}
use Errors.{GoError, HttpError, http, plain, wrap, is_retryable, is_rate_limited, error_text}

-- `float64` and the formatting of a `time.Duration`, which Go's library provides.
pub record Runtime : Type 1 where
  pub Float : Type 0
  pub of_int : ℤ → Float
  pub to_int : Float → ℤ
  pub times : Float → Float → Float
  pub pow : Float → Float → Float
  pub add : Float → Float → Float
  pub one : Float
  pub two : Float
  pub quarter : Float
  pub lt : Float → Float → Bool
  pub le : Float → Float → Bool
  pub duration_text : ℤ → Str

abbrev pub second : ℕ
second = 1_000_000_000

abbrev pub millisecond : ℕ
millisecond = 1_000_000

-- What one round of the loop decides once `fn` has returned.
pub data Decision : Type 0 where
  return_nil : Decision
  return_error : GoError → Decision
  give_up : Decision
  wait : ℤ → ℕ → Decision

-- `pending` is a loop that goes on after the script, with its counter.
pub data Result : Type 0 where
  done : Option GoError → Result
  pending : ℕ → Result

-- The delay after a 429: what the server asks for, or a minute.
pub rate_limit_delay : HttpError → ℤ
rate_limit_delay e = if leb_ℤ e.retry_after (pos 0) then pos (60 * second) else e.retry_after

module _ (rt : Runtime) where
  open rt use {Float, of_int, to_int, times, pow, add, one, two, quarter, lt, le, duration_text}

  -- Durations are int64 nanoseconds.
  pub record Config : Type 0 where
    pub max_retries : ℤ
    pub initial_delay : ℤ
    pub max_delay : ℤ
    pub backoff_factor : Float
    pub jitter_enabled : Bool
    pub resilient_mode : Bool
    pub health_check_url : Str
    pub health_check_timeout : ℤ
    pub health_check_retries : ℤ

  unfoldable pub default_config : Config
  default_config = record {
    max_retries = pos 3;
    initial_delay = pos (1 * second);
    max_delay = pos (30 * second);
    backoff_factor = two;
    jitter_enabled = true;
    resilient_mode = false;
    health_check_url = [];
    health_check_timeout = pos (10 * second);
    health_check_retries = pos 3;
  }

  unfoldable pub resilient_config : Config
  unfolding default_config
  resilient_config = record default_config {
    max_retries = pos 10;
    initial_delay = pos (100 * millisecond);
    max_delay = pos (60 * second);
    resilient_mode = true;
    health_check_retries = pos 5;
  }

  -- The configuration that `NewRetryer` keeps.
  pub new_retryer : Config → Config
  new_retryer c = record c {
    initial_delay = if leb_ℤ c.initial_delay (pos 0) then pos (1 * second) else c.initial_delay;
    max_delay = if leb_ℤ c.max_delay (pos 0) then pos (30 * second) else c.max_delay;
    backoff_factor = if le c.backoff_factor one then two else c.backoff_factor;
  }

  unfoldable pub new_retryer_with_defaults : Config
  unfolding new_retryer default_config
  new_retryer_with_defaults = new_retryer default_config

  -- `float64(InitialDelay) * math.Pow(BackoffFactor, float64(attempt))`, capped.
  capped_delay : Config → ℕ → Float
  capped_delay c attempt =
      let delay = times (of_int c.initial_delay) (pow c.backoff_factor (of_int (pos attempt))) in
      if lt (of_int c.max_delay) delay then of_int c.max_delay else delay

  -- `random` is what `rng.Float64()` draws.
  pub calculate_delay : Config → ℕ → Float → ℤ
  unfolding capped_delay
  calculate_delay c attempt random =
      let delay = capped_delay c attempt in
      to_int (if c.jitter_enabled then times delay (add one (times random quarter)) else delay)

  -- `r.config.MaxRetries >= 0 && attempt >= r.config.MaxRetries`
  abbrev pub used_up : Config → ℕ → Bool
  used_up c attempt = leb_ℤ (pos 0) c.max_retries && leb_ℤ c.max_retries (pos attempt)

  decide_retryable : Config → ℕ → Float → GoError → Decision
  decide_retryable c attempt random err =
      if used_up c attempt then give_up else wait (calculate_delay c attempt random) (attempt + 1)

  decide_http : Config → ℕ → Float → HttpError → Decision
  unfolding decide_retryable
  decide_http c attempt random e =
      if is_rate_limited e
      then wait (rate_limit_delay e) attempt
      else decide_retryable c attempt random (http e)

  decide_error : Config → ℕ → Float → GoError → Decision
  unfolding decide_http decide_retryable
  decide_error c attempt random (http e) = decide_http c attempt random e
  decide_error c attempt random err = decide_retryable c attempt random err

  pub decide : Config → ℕ → Float → Option GoError → Decision
  unfolding decide_error
  decide c attempt random none = return_nil
  decide c attempt random (some err) =
      if not (is_retryable err) then return_error err else decide_error c attempt random err

  -- One round: what `fn` returns, the random draw, and the text of `ctx.Err()` if the context is done
  -- before the wait is over.
  pub record Round : Type 0 where
    pub outcome : Option GoError
    pub random : Float
    pub cancelled : Option Str

  -- `fmt.Errorf("retry failed after %d attempts: %w", attempt, lastErr)`; a nil `lastErr` prints as
  -- `%!w(<nil>)`.
  unfoldable pub exhausted : ℕ → Option GoError → GoError
  exhausted attempt none =
      plain (codes "retry failed after " ++ itoa attempt ++ codes " attempts: %!w(<nil>)")
  exhausted attempt (some e) =
      wrap
        (codes "retry failed after "
          ++ itoa attempt
          ++ codes " attempts: "
          ++ error_text duration_text e)
        e

  -- The rest of a round after its decision; `next` is the loop on the remaining rounds.
  pub resume : Option GoError → Option Str → ℕ → (ℕ → Result) → Decision → Result
  resume last cancelled attempt next return_nil = done none
  resume last cancelled attempt next (return_error e) = done (some e)
  resume last cancelled attempt next give_up = done (some (exhausted attempt last))
  resume last (some text) attempt next (wait delay attempt') = done (some (plain text))
  resume last none attempt next (wait delay attempt') = next attempt'

  -- `r.config.MaxRetries >= 0 && attempt > r.config.MaxRetries`
  abbrev pub over_limit : Config → ℕ → Bool
  over_limit c attempt = leb_ℤ (pos 0) c.max_retries && ltb_ℤ c.max_retries (pos attempt)

  -- The loop from a counter and the last error, on the rounds to come.
  pub retry_from : Config → ℕ → Option GoError → List Round → Result
  unfolding resume decide exhausted
  retry_from c attempt last [] = pending attempt
  retry_from c attempt last (r ∷ rs) =
      let rest =
        resume r.outcome r.cancelled attempt (λ a. retry_from c a r.outcome rs)
          (decide c attempt r.random r.outcome) in
      if over_limit c attempt then done (some (exhausted attempt last)) else rest

  unfoldable pub retry : Config → List Round → Result
  unfolding retry_from
  retry c rounds = retry_from c 0 none rounds

  unfoldable pub retry_with_defaults : List Round → Result
  unfolding retry new_retryer_with_defaults
  retry_with_defaults rounds = retry new_retryer_with_defaults rounds
