-- ===== src/Retry/Loop.antt =====
-- pkg/retry/retry.go: how the retry loop ends.
pub mod Moves
pub mod Limits
use logflux_go_sdk.Prelude.{
  Str, ℕ, zero, suc, ◌+◌, ◌-◌, ◌≤◌, ◌<◌, ◌≡◌, refl, sym, ap, ◌∙◌, ℤ, pos, negsuc, leb_ℤ, ltb_ℤ,
  Bool, true, false, not, ◌&&◌, List, [], ◌∷◌, ◌++◌, Option, none, some, arith, if◌then◌else◌,
  Bool-cases, inl, inr, length, All,
}
use logflux_go_sdk.Retry.Errors.{
  GoError, HttpError, http, plain, wrap, is_retryable, is_rate_limited, retryable_status,
}
use logflux_go_sdk.Retry.{
  Runtime, Config, Round, Result, done, pending, Decision, return_nil, return_error, give_up, wait,
  decide, decide_error, decide_http, decide_retryable, exhausted, resume, retry_from, retry,
  used_up, over_limit,
}
use Moves.{
  is_limit, Move, ends_nil, ends_error, ends_exhausted, limited, counts, decide-Move,
  retry_from_step,
}

-- What a caller may learn from a result: a bare `*HTTPError` is never worth a retry.
abbrev pub Final : Result → Type 0
Final (done (some (http e))) = is_retryable (http e) ≡ false
Final _ = Unit {0}

module _ (rt : Runtime) where
  -- The rounds that count as attempts.
  unfoldable pub counted : List (Round rt) → ℕ
  counted [] = 0
  counted (r ∷ rs) = if is_limit r.outcome then counted rs else suc (counted rs)

  resume_done :
      (c : Config rt) (n a : ℕ) (o : Option GoError) (cancelled : Option Str) (next : ℕ → Result)
      (d : Decision)
      → Move rt c a o d
      → c.max_retries ≡ pos n
      → (is_limit o ≡ true → (res : Option GoError) × (next a ≡ done res))
      → (is_limit o ≡ false → a < n → (res : Option GoError) × (next (a + 1) ≡ done res))
      → (res : Option GoError) × (resume rt o cancelled a next d ≡ done res)
  unfolding resume
  resume_done c n a o cancelled next d (ends_nil h) e f g = (none, refl)
  resume_done c n a o cancelled next d (ends_error x _ _) e f g = (some x, refl)
  resume_done c n a o cancelled next d (ends_exhausted _ _ _ _ _) e f g = (_, refl)
  resume_done c n a o (some s) next d (limited _ _ _) e f g = (_, refl)
  resume_done c n a o none next d (limited _ _ l) e f g = f l
  resume_done c n a o (some s) next d (counts _ _ _ _ _ _) e f g = (_, refl)
  resume_done c n a o none next d (counts _ _ _ l u _) e f g = g l (ground arith)

  within : (c : Config rt) (n a : ℕ) → c.max_retries ≡ pos n → a ≤ n → over_limit rt c a ≡ false
  within c n a e h = ground arith

  counted_done :
      (c : Config rt) (n : ℕ)
      → c.max_retries ≡ pos n
      → (a : ℕ) (last : Option GoError) (rs : List (Round rt)) → a ≤ n
      → n < a + counted rs
      → (res : Option GoError) × (retry_from rt c a last rs ≡ done res)
  unfolding counted
  counted_done c n e a last [] h k = absurd (omega arith)
  counted_done c n e a last (r ∷ rs) h k =
      rw (retry_from_step rt c a last r rs (within c n a e h)) (
        resume_done c n a r.outcome r.cancelled (λ a'. retry_from rt c a' r.outcome rs)
          (decide rt c a r.random r.outcome) (decide-Move rt c a r.random r.outcome) e
          (λ l. counted_done c n e a r.outcome rs h (ground arith))
          (λ l m. counted_done c n e (a + 1) r.outcome rs (omega arith) (ground arith)))

  -- The loop ends: with `MaxRetries` at `n`, no script with more than `n` rounds that are no rate
  -- limit leaves it running, so `fn` fails at most `n + 1` times other than by a rate limit.
  pub retry_ends :
      (c : Config rt) (n : ℕ) (rs : List (Round rt))
      → c.max_retries ≡ pos n
      → n < counted rs
      → (res : Option GoError) × (retry rt c rs ≡ done res)
  unfolding retry
  retry_ends c n rs e h = counted_done c n e 0 none rs (omega arith) (omega arith)

  exhausted-Final : (a : ℕ) (last : Option GoError) → Final (done (some (exhausted rt a last)))
  unfolding exhausted
  exhausted-Final a none = tt
  exhausted-Final a (some e) = tt

  error-Final : (e : GoError) → is_retryable e ≡ false → Final (done (some e))
  error-Final (http e) h = h
  error-Final (plain s) h = tt
  error-Final (wrap s e) h = tt

  resume-Final :
      (c : Config rt) (a : ℕ) (o : Option GoError) (cancelled : Option Str) (next : ℕ → Result)
      (d : Decision)
      → Move rt c a o d
      → ((a' : ℕ) → Final (next a'))
      → Final (resume rt o cancelled a next d)
  unfolding resume
  resume-Final c a o cancelled next d (ends_nil h) f = tt
  resume-Final c a o cancelled next d (ends_error x _ h) f = error-Final x h
  resume-Final c a o cancelled next d (ends_exhausted _ _ _ _ _) f = exhausted-Final a o
  resume-Final c a o (some s) next d (limited _ _ _) f = tt
  resume-Final c a o none next d (limited _ _ l) f = f a
  resume-Final c a o (some s) next d (counts _ _ _ _ _ _) f = tt
  resume-Final c a o none next d (counts _ _ _ l u _) f = f (a + 1)

  retry_from-Final :
      (c : Config rt) (a : ℕ) (last : Option GoError) (rs : List (Round rt))
      → Final (retry_from rt c a last rs)
  unfolding retry_from
  retry_from-Final c a last [] = tt
  retry_from-Final c a last (r ∷ rs) = elim (Bool-cases (over_limit rt c a)) [
    | inl h ↦ rw h (exhausted-Final a last)
    | inr h ↦ rw h (
        resume-Final c a r.outcome r.cancelled (λ a'. retry_from rt c a' r.outcome rs)
          (decide rt c a r.random r.outcome) (decide-Move rt c a r.random r.outcome)
          (λ a'. retry_from-Final c a' r.outcome rs))
  ]

  -- `Retry` returns a bare HTTP error only if its status is not retryable: a rate limit, a 500 or a
  -- 503 that used up the retries comes back wrapped, so a type assertion on it fails.
  pub retry-Final : (c : Config rt) (rs : List (Round rt)) → Final (retry rt c rs)
  unfolding retry
  retry-Final c rs = retry_from-Final c 0 none rs
