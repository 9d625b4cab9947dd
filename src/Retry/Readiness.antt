-- ===== src/Retry/Readiness.antt =====
-- pkg/retry/retry.go: the probe of the server's health before a new attempt (waitForServerReadiness).
-- The context, the timers and HTTP enter as what each attempt meets.
pub mod Outcome
use logflux_go_sdk.Prelude.{
  ℕ, zero, suc, ◌+◌, ◌≤◌, ◌<◌, ◌≡◌, refl, ℤ, pos, eqb_ℤ, leb_ℤ, ltb_ℤ, ◌≤ℤ◌, pos_part, Bool, true,
  false, not, ◌||◌, ◌&&◌, List, [], ◌∷◌, ◌++◌, Option, none, some, if◌then◌else◌, Str, codes,
  str_eq, arith, ◌↔◌, All, Bool-cases, inl, inr,
}
use logflux_go_sdk.Retry.Errors.{GoError, plain, int_text}
use logflux_go_sdk.Retry.{Runtime, Config}

-- What an attempt meets: the text of `ctx.Err()` if the context is done before it, the error of
-- `http.NewRequestWithContext`, the status of the response (none if `client.Do` fails), and the text of
-- `ctx.Err()` if the context is done before the wait is over.
pub record Attempt : Type 0 where
  pub done_before : Option Str
  pub request_error : Option GoError
  pub status : Option ℤ
  pub done_waiting : Option Str

-- What the probe returns, how many requests it sent, and the timers that it started.
pub record Readiness : Type 0 where
  pub error : Option GoError
  pub requests : ℕ
  pub waits : List ℤ

stop : Option GoError → Readiness
stop e = record { error = e; requests = 0; waits = [] }

sent : Readiness → Readiness
sent r = record r { requests = suc r.requests }

waited : ℤ → Readiness → Readiness
waited d r = record r { waits = d ∷ r.waits }

-- `err == nil && resp.StatusCode == http.StatusOK`
answers_ok : Option ℤ → Bool
answers_ok none = false
answers_ok (some s) = eqb_ℤ s (pos 200)

-- The wait before the next attempt; `rest` is what the next attempts do.
wait_backoff : Option Str → ℤ → Readiness → Readiness
unfolding stop waited
wait_backoff (some text) backoff rest = waited backoff (stop (some (plain text)))
wait_backoff none backoff rest = waited backoff rest

-- The request of an attempt. `left` attempts may follow.
probe : Attempt → ℕ → ℤ → Readiness → Readiness
unfolding stop sent answers_ok wait_backoff
probe a left backoff rest =
    if answers_ok a.status
    then sent (stop none)
    else sent (elim left [ zero ↦ rest | suc _ ↦ wait_backoff a.done_waiting backoff rest ])

attempt_once : Option Str → Option GoError → Readiness → Readiness
unfolding stop
attempt_once (some text) request_error rest = stop (some (plain text))
attempt_once none (some e) rest = stop (some e)
attempt_once none none rest = rest

module _ (rt : Runtime) where
  -- The backoff of the next wait.
  next_backoff : Config rt → ℤ → ℤ
  next_backoff c backoff =
      let grown = rt.to_int (rt.times (rt.of_int backoff) c.backoff_factor) in
      if ltb_ℤ c.max_delay grown then c.max_delay else grown

  -- `fmt.Errorf("server not ready after %d health checks", r.config.HealthCheckRetries)`
  not_ready : Config rt → GoError
  not_ready c =
      plain (
        codes "server not ready after "
        ++ int_text c.health_check_retries
        ++ codes " health checks")

  -- The loop with `left` attempts to go, from the counter `attempt` on.
  probe_from : Config rt → (ℕ → Attempt) → ℕ → ℕ → ℤ → Readiness
  unfolding stop attempt_once probe next_backoff not_ready
  probe_from c meets zero attempt backoff = stop (some (not_ready c))
  probe_from c meets (suc left) attempt backoff =
      let a = meets attempt in
      let rest = probe_from c meets left (attempt + 1) (next_backoff c backoff) in
      attempt_once a.done_before a.request_error (probe a left backoff rest)

  unfoldable pub wait_for_server_readiness : Config rt → (ℕ → Attempt) → Readiness
  unfolding stop probe_from
  wait_for_server_readiness c meets =
      if not c.resilient_mode || str_eq c.health_check_url []
      then stop none
      else probe_from c meets (pos_part c.health_check_retries) 0 c.initial_delay

  unfoldable pub set_health_check_url : Config rt → Str → Config rt
  set_health_check_url c url = record c { health_check_url = url }

  unfoldable pub enable_resilient_mode : Config rt → Bool → Config rt
  enable_resilient_mode c enabled = record c { resilient_mode = enabled }
