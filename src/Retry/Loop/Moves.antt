-- ===== src/Retry/Loop/Moves.antt =====
-- pkg/retry/retry.go: what one round of the retry loop can do.
use logflux_go_sdk.Prelude.{
  ℕ, ◌+◌, ◌≡◌, refl, ℤ, Bool, true, false, List, ◌∷◌, Option, none, some, Bool-cases, inl, inr,
}
use logflux_go_sdk.Retry.Errors.{
  GoError, HttpError, http, plain, wrap, is_retryable, is_rate_limited,
}
use logflux_go_sdk.Retry.{
  Runtime, Config, Round, Decision, return_nil, return_error, give_up, wait, decide, decide_error,
  decide_http, decide_retryable, resume, retry_from, used_up, over_limit, rate_limit_delay,
}

-- An error that the server's rate limit caused.
abbrev pub is_limit : Option GoError → Bool
is_limit (some (http e)) = is_rate_limited e
is_limit _ = false

-- The five ways in which a round goes, each with what it says of the round's outcome.
pub data Move (rt : Runtime) (c : Config rt) (a : ℕ) (o : Option GoError) : Decision → Type 0 where
  ends_nil : o ≡ none → Move rt c a o return_nil
  ends_error : (e : GoError) → o ≡ some e → is_retryable e ≡ false → Move rt c a o (return_error e)
  ends_exhausted :
      (e : GoError)
      → o ≡ some e
      → is_retryable e ≡ true
      → is_limit o ≡ false
      → used_up rt c a ≡ true
      → Move rt c a o give_up
  limited :
      (e : HttpError)
      → o ≡ some (http e)
      → is_limit o ≡ true
      → Move rt c a o (wait (rate_limit_delay e) a)
  counts :
      (e : GoError)
      → o ≡ some e
      → is_retryable e ≡ true
      → is_limit o ≡ false
      → used_up rt c a ≡ false
      → (delay : ℤ) → Move rt c a o (wait delay (a + 1))

module _ (rt : Runtime) (c : Config rt) where
  decide_retryable-Move :
      (a : ℕ) (random : rt.Float) (e : GoError)
      → is_retryable e ≡ true
      → is_limit (some e) ≡ false
      → Move rt c a (some e) (decide_retryable rt c a random e)
  unfolding decide_retryable
  decide_retryable-Move a random e r l = elim (Bool-cases (used_up rt c a)) [
    | inl u ↦ rw u (ends_exhausted e refl r l u)
    | inr u ↦ rw u (counts e refl r l u _)
  ]

  decide_http-Move :
      (a : ℕ) (random : rt.Float) (e : HttpError)
      → is_retryable (http e) ≡ true
      → Move rt c a (some (http e)) (decide_http rt c a random e)
  unfolding decide_http
  decide_http-Move a random e r = elim (Bool-cases (is_rate_limited e)) [
    | inl l ↦ rw l (limited e refl l)
    | inr l ↦ rw l (decide_retryable-Move a random (http e) r l)
  ]

  decide_error-Move :
      (a : ℕ) (random : rt.Float) (e : GoError)
      → is_retryable e ≡ true
      → Move rt c a (some e) (decide_error rt c a random e)
  unfolding decide_error
  decide_error-Move a random (http e) r = decide_http-Move a random e r
  decide_error-Move a random (plain s) r = decide_retryable-Move a random (plain s) r refl
  decide_error-Move a random (wrap s e) r = decide_retryable-Move a random (wrap s e) r refl

  pub decide-Move :
      (a : ℕ) (random : rt.Float) (o : Option GoError) → Move rt c a o (decide rt c a random o)
  unfolding decide
  decide-Move a random none = ends_nil refl
  decide-Move a random (some e) = elim (Bool-cases (is_retryable e)) [
    | inl r ↦ rw r (decide_error-Move a random e r)
    | inr r ↦ rw r (ends_error e refl r)
  ]

  -- A round from a counter within the limit follows its decision.
  pub retry_from_step :
      (a : ℕ) (last : Option GoError) (r : Round rt) (rs : List (Round rt))
      → over_limit rt c a ≡ false
      → retry_from rt c a last (r ∷ rs)
        ≡ resume rt r.outcome r.cancelled a
            (λ a'. retry_from rt c a' r.outcome rs)
            (decide rt c a r.random r.outcome)
  unfolding retry_from
  retry_from_step a last r rs h = rw h
