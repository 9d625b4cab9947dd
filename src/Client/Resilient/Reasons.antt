-- ===== src/Client/Resilient/Reasons.antt =====
-- pkg/client/resilient_client.go with pkg/retry/retry.go: under which reason a failed delivery counts.
use logflux_go_sdk.Prelude.{
  ℕ, ◌≡◌, refl, sym, ◌≢◌, ap, ◌∙◌, subst, ℤ, pos, List, [], ◌∷◌, ◌++◌, Option, none, some, arith,
  Str, length, All,
}
use logflux_go_sdk.Retry.Errors.{GoError, http, plain, wrap, error_text}
use logflux_go_sdk.Retry.{Runtime, Config, Round, done, retry, exhausted}
use logflux_go_sdk.Retry.Loop.{Final, retry-Final}
use logflux_go_sdk.Retry.Loop.Limits.{limit_retryable, Fails, retry_gives_up}
use logflux_go_sdk.Client.Resilient.State.{
  ResilientClient, network_error, rate_limited, record_drop, record_error,
}
use logflux_go_sdk.Client.Resilient.Accounting.{AddsUp, record_drop-AddsUp}
use logflux_go_sdk.Client.Resilient.Sending.{drop_reason_of, handle_send_error}

module _ (rt : Runtime) where
  Final-reason :
      (e : GoError) → Final (done (some e)) → drop_reason_of rt.duration_text e ≡ rate_limited → ⊥
  unfolding drop_reason_of
  Final-reason (http e) f h = ground (arith, limit_retryable (http e))
  Final-reason (plain s) f h = cc
  Final-reason (wrap s e) f h = cc

  -- A delivery that `Retry` gave up never counts under the rate limit: whatever the script of its
  -- attempts, the error that it returns is recorded under another reason.
  pub retry_never_rate_limited :
      (cfg : Config rt) (rounds : List (Round rt)) (e : GoError)
      → retry rt cfg rounds ≡ done (some e)
      → drop_reason_of rt.duration_text e ≢ rate_limited
  retry_never_rate_limited cfg rounds e h =
      Final-reason e (subst Final h (retry-Final rt cfg rounds))

  exhausted_network :
      (a : ℕ) (o : Option GoError)
      → drop_reason_of rt.duration_text (exhausted rt a o) ≡ network_error
  unfolding drop_reason_of exhausted
  exhausted_network a none = refl
  exhausted_network a (some e) = refl

  -- A batch whose attempts all ended in a retryable failure counts under `network_error`
  -- once the retries are used up, and not under `send_error`: its error comes back wrapped.
  pub exhausted_counts_network :
      (cfg : Config rt) (rs : List (Round rt)) (r : Round rt) (e : GoError) (c : ResilientClient)
      (count : ℕ)
      → cfg.max_retries ≡ pos (length rs)
      → All (Fails rt) rs
      → Fails rt r
      → retry rt cfg (rs ++ r ∷ []) ≡ done (some e)
      → handle_send_error rt.duration_text c e count
        ≡ record_error (record_drop c network_error count) (error_text rt.duration_text e)
  unfolding handle_send_error
  exhausted_counts_network cfg rs r e c count m fs f h =
      ap (λ reason. record_error (record_drop c reason count) (error_text rt.duration_text e))
        (ap (drop_reason_of rt.duration_text) (same e (sym h ∙ retry_gives_up rt cfg rs r m fs f))
          ∙ exhausted_network (length rs) r.outcome)
    where
      same :
          (x : GoError)
          → done (some x) ≡ done (some (exhausted rt (length rs) r.outcome))
          → x ≡ exhausted rt (length rs) r.outcome
      same x k = cc

record_error-AddsUp : (c : ResilientClient) (text : Str) → AddsUp c → AddsUp (record_error c text)
unfolding record_error
record_error-AddsUp c text a = a

-- A failed delivery keeps the total of the drops equal to the sum of the counts by reason.
handle_send_error-AddsUp :
    (duration_text : ℤ → Str) (c : ResilientClient) (e : GoError) (count : ℕ)
    → AddsUp c
    → AddsUp (handle_send_error duration_text c e count)
unfolding handle_send_error
handle_send_error-AddsUp duration_text c e count a =
    record_error-AddsUp _ _ (record_drop-AddsUp c _ count a)
