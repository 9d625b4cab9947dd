-- ===== src/Retry/Loop/Limits.antt =====
-- pkg/retry/retry.go: rate limits and attempts.
use logflux_go_sdk.Prelude.{
  codes, itoa, ap, is_none, Str, ℕ, ◌+◌, ◌≡◌, refl, sym, ◌∙◌, pos, Bool, true, false, ◌&&◌, List,
  [], ◌∷◌, ◌++◌, Option, none, some, arith, if◌then◌else◌, Bool-cases, inl, inr, length, All,
}
use logflux_go_sdk.Retry.Errors.{
  GoError, http, plain, wrap, is_retryable, is_rate_limited, retryable_status, error_text,
}
use logflux_go_sdk.Retry.{
  Runtime, Config, Round, Result, done, Decision, decide, exhausted, resume, retry_from, retry,
  used_up, over_limit,
}
use logflux_go_sdk.Retry.Loop.Moves.{
  is_limit, Move, ends_nil, ends_error, ends_exhausted, limited, counts, decide-Move,
  retry_from_step,
}

pub limit_retryable : (e : GoError) → is_limit (some e) ≡ true → is_retryable e ≡ true
unfolding is_retryable is_rate_limited retryable_status
limit_retryable (http e) h = ground arith
limit_retryable (plain s) h = cc
limit_retryable (wrap s e) h = cc

module _ (rt : Runtime) where
  -- A round that only waited for the rate limit.
  pub waited : Round rt → Bool
  waited r = is_limit r.outcome && is_none r.cancelled

  -- The script without those rounds.
  pub unlimited : List (Round rt) → List (Round rt)
  unfolding waited
  unlimited [] = []
  unlimited (r ∷ rs) = if waited r then unlimited rs else r ∷ unlimited rs

  last_irrelevant :
      (c : Config rt) (a : ℕ) (last last' : Option GoError) (rs : List (Round rt))
      → over_limit rt c a ≡ false
      → retry_from rt c a last rs ≡ retry_from rt c a last' rs
  unfolding retry_from
  last_irrelevant c a last last' [] h = refl
  last_irrelevant c a last last' (r ∷ rs) h = rw h

  resume_limit :
      (c : Config rt) (a : ℕ) (o : Option GoError) (cancelled : Option Str) (next : ℕ → Result)
      (d : Decision)
      → Move rt c a o d
      → is_limit o ≡ true
      → cancelled ≡ none
      → resume rt o cancelled a next d ≡ next a
  unfolding resume
  resume_limit c a o cancelled next d (ends_nil h) l n = ground arith
  resume_limit c a o cancelled next d (ends_error e h r) l n = ground (arith, limit_retryable e)
  resume_limit c a o cancelled next d (ends_exhausted _ _ _ l' _) l n = cc
  resume_limit c a o none next d (limited _ _ _) l n = refl
  resume_limit c a o (some s) next d (limited _ _ _) l n = cc
  resume_limit c a o cancelled next d (counts _ _ _ l' _ _) l n = cc

  resume_agree :
      (c : Config rt) (a : ℕ) (o : Option GoError) (cancelled : Option Str) (f g : ℕ → Result)
      (d : Decision)
      → Move rt c a o d
      → f a ≡ g a
      → (used_up rt c a ≡ false → f (a + 1) ≡ g (a + 1))
      → resume rt o cancelled a f d ≡ resume rt o cancelled a g d
  unfolding resume
  resume_agree c a o cancelled f g d (ends_nil h) p q = refl
  resume_agree c a o cancelled f g d (ends_error _ _ _) p q = refl
  resume_agree c a o cancelled f g d (ends_exhausted _ _ _ _ _) p q = refl
  resume_agree c a o none f g d (limited _ _ _) p q = p
  resume_agree c a o (some s) f g d (limited _ _ _) p q = refl
  resume_agree c a o none f g d (counts _ _ _ _ u _) p q = q u
  resume_agree c a o (some s) f g d (counts _ _ _ _ u _) p q = refl

  over_limit_next :
      (c : Config rt) (a : ℕ) → used_up rt c a ≡ false → over_limit rt c (a + 1) ≡ false
  over_limit_next c a u = ground arith

  waited_parts :
      (r : Round rt) → waited r ≡ true → (is_limit r.outcome ≡ true) × (r.cancelled ≡ none)
  unfolding waited
  waited_parts r h = ground arith

  unlimited_from :
      (c : Config rt) (a : ℕ) (last : Option GoError) (rs : List (Round rt))
      → over_limit rt c a ≡ false
      → retry_from rt c a last (unlimited rs) ≡ retry_from rt c a last rs
  unfolding unlimited
  unlimited_from c a last [] h = refl
  unlimited_from c a last (r ∷ rs) h = elim (Bool-cases (waited r)) [
    | inl w ↦
        let k = waited_parts r w in
        rw (w, retry_from_step rt c a last r rs h)
          (unlimited_from c a last rs h
            ∙ last_irrelevant c a last r.outcome rs h
            ∙ sym (
                resume_limit c a r.outcome r.cancelled (λ a'. retry_from rt c a' r.outcome rs)
                  (decide rt c a r.random r.outcome) (decide-Move rt c a r.random r.outcome) k.0
                  k.1))
    | inr w ↦
        rw (w, retry_from_step rt c a last r rs h, retry_from_step rt c a last r (unlimited rs) h)
          (resume_agree c a r.outcome r.cancelled
            (λ a'. retry_from rt c a' r.outcome (unlimited rs))
            (λ a'. retry_from rt c a' r.outcome rs) (decide rt c a r.random r.outcome)
            (decide-Move rt c a r.random r.outcome) (unlimited_from c a r.outcome rs h)
            (λ u. unlimited_from c (a + 1) r.outcome rs (over_limit_next c a u)))
  ]

  over_limit_start : (c : Config rt) → over_limit rt c 0 ≡ false
  over_limit_start c = ground arith

  -- The rounds that ended in a rate limit whose wait ran to its end can be taken out of a script, and
  -- the result is the same, its attempt count included: they use up no retry.
  pub retry-unlimited :
      (c : Config rt) (rs : List (Round rt)) → retry rt c (unlimited rs) ≡ retry rt c rs
  unfolding retry
  retry-unlimited c rs = unlimited_from c 0 none rs (over_limit_start c)

  -- A round that fails in a way worth a retry, not by the rate limit, and whose wait runs to its end.
  abbrev pub Fails : Round rt → Type 0
  Fails r =
      (e : GoError) × (r.outcome ≡ some e)
      × (is_retryable e ≡ true)
      × (is_limit r.outcome ≡ false)
      × (r.cancelled ≡ none)

  resume_failing :
      (c : Config rt) (a : ℕ) (o : Option GoError) (cancelled : Option Str) (next : ℕ → Result)
      (d : Decision) (e : GoError)
      → Move rt c a o d
      → o ≡ some e
      → is_retryable e ≡ true
      → is_limit o ≡ false
      → cancelled ≡ none
      → resume rt o cancelled a next d
        ≡ (if used_up rt c a then done (some (exhausted rt a o)) else next (a + 1))
  unfolding resume
  resume_failing c a o cancelled next d e (ends_nil h) p r l n = ground arith
  resume_failing c a o cancelled next d e (ends_error e' h r') p r l n = ground arith
  resume_failing c a o cancelled next d e (ends_exhausted _ _ _ _ u) p r l n = rw u
  resume_failing c a o cancelled next d e (limited _ _ l') p r l n = cc
  resume_failing c a o none next d e (counts _ _ _ _ u _) p r l n = rw u
  resume_failing c a o (some s) next d e (counts _ _ _ _ u _) p r l n = cc

  exhausted_from :
      (c : Config rt) (n a : ℕ) (last : Option GoError) (rs : List (Round rt)) (r : Round rt)
      → c.max_retries ≡ pos n
      → a + length rs ≡ n
      → All Fails rs
      → Fails r
      → retry_from rt c a last (rs ++ r ∷ []) ≡ done (some (exhausted rt n r.outcome))
  exhausted_from c n a last [] r e h fs f =
      let k : a ≡ n = omega arith in
      rw
        (
          retry_from_step rt c a last r [] (ground arith),
          resume_failing c a r.outcome r.cancelled (λ a'. retry_from rt c a' r.outcome [])
              (decide rt c a r.random r.outcome) f.0 (decide-Move rt c a r.random r.outcome) f.1 f.2
              f.3 f.4,
          k,
        )
        (ground arith)
  exhausted_from c n a last (x ∷ xs) r e h fs f =
      rw
        (
          retry_from_step rt c a last x (xs ++ r ∷ []) (ground arith),
          resume_failing c a x.outcome x.cancelled
              (λ a'. retry_from rt c a' x.outcome (xs ++ r ∷ [])) (decide rt c a x.random x.outcome)
              fs.0.0 (decide-Move rt c a x.random x.outcome) fs.0.1 fs.0.2 fs.0.3 fs.0.4,
          exhausted_from c n (a + 1) x.outcome xs r e (omega arith) fs.1 f,
        )
        (ground arith)

  pub retry_gives_up :
      (c : Config rt) (rs : List (Round rt)) (r : Round rt)
      → c.max_retries ≡ pos (length rs)
      → All Fails rs
      → Fails r
      → retry rt c (rs ++ r ∷ []) ≡ done (some (exhausted rt (length rs) r.outcome))
  unfolding retry
  retry_gives_up c rs r e fs f = exhausted_from c (length rs) 0 none rs r e (omega arith) fs f

  -- Where `fn` fails `n + 1` times in a way worth a retry, with `MaxRetries` at `n` and no wait cut
  -- short, the loop gives up with an error that wraps the last one; its text is `retry failed after n
  -- attempts: ` and the text of the last one, so it counts one fewer than the calls of `fn`.
  pub retry-exhausted :
      (c : Config rt) (rs : List (Round rt)) (r : Round rt)
      → c.max_retries ≡ pos (length rs)
      → All Fails rs
      → (f : Fails r)
      → retry rt c (rs ++ r ∷ [])
        ≡ done (
            some (
              wrap
                (codes "retry failed after "
                  ++ itoa (length rs)
                  ++ codes " attempts: "
                  ++ error_text rt.duration_text f.0)
                f.0))
  unfolding exhausted
  retry-exhausted c rs r e fs f =
      retry_gives_up c rs r e fs f ∙ ap (λ o. done (some (exhausted rt (length rs) o))) f.1
