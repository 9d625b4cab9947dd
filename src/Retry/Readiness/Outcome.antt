-- ===== src/Retry/Readiness/Outcome.antt =====
-- pkg/retry/retry.go: when the probe finds the server ready, and how long it goes on.
use logflux_go_sdk.Prelude.{
  ℕ, zero, suc, ◌+◌, ◌-◌, ◌≤◌, ◌<◌, ◌==◌, ◌≡◌, ◌≢◌, refl, ap, subst, ℤ, pos, ◌≤ℤ◌, pos_part, true,
  false, List, [], ◌∷◌, length, Option, none, some, if◌then◌else◌, str_eq, arith, ◌↔◌, All, inl,
  inr, ◌⊎◌,
}
use logflux_go_sdk.Retry.{Runtime, Config}
use logflux_go_sdk.Retry.Readiness.{
  Attempt, Readiness, stop, sent, waited, answers_ok, wait_backoff, probe, attempt_once,
  next_backoff, probe_from, wait_for_server_readiness,
}

-- An attempt that sends its request.
abbrev pub Sends : Attempt → Type 0
Sends a = (a.done_before ≡ none) × (a.request_error ≡ none)

-- An attempt that finds the server ready.
abbrev pub Finds : Attempt → Type 0
Finds a = Sends a × (a.status ≡ some (pos 200))

-- An attempt after which the loop goes on: no answer, or one with another status.
abbrev pub Leads : Attempt → Type 0
Leads a = Sends a × (a.status ≢ some (pos 200)) × (a.done_waiting ≡ none)

answers_iff : (s : Option ℤ) → answers_ok s ≡ true ↔ s ≡ some (pos 200)
unfolding answers_ok
answers_iff none = ground arith
answers_iff (some s) = ground arith

-- What an attempt that returns nil did.
attempt_nil :
    (a : Attempt) (left : ℕ) (backoff : ℤ) (rest : Readiness)
    → (attempt_once a.done_before a.request_error (probe a left backoff rest)).error ≡ none
    → Finds a ⊎ ((rest.error ≡ none) × (0 < left → Leads a))
unfolding attempt_once probe stop sent waited wait_backoff
attempt_nil a left backoff rest h = grind (arith, answers_iff a.status)

-- Where an attempt finds the server ready, the probe returns nil.
attempt-Finds :
    (a : Attempt) (left : ℕ) (backoff : ℤ) (rest : Readiness)
    → Finds a
    → (attempt_once a.done_before a.request_error (probe a left backoff rest)).error ≡ none
unfolding attempt_once probe stop sent
attempt-Finds a left backoff rest f = rw (f.0.0, f.0.1, (answers_iff a.status).1 f.1) refl

attempt-Leads :
    (a : Attempt) (left : ℕ) (backoff : ℤ) (rest : Readiness)
    → Leads a
    → rest.error ≡ none
    → (attempt_once a.done_before a.request_error (probe a left backoff rest)).error ≡ none
unfolding attempt_once probe stop sent waited wait_backoff
attempt-Leads a left backoff rest l h = grind (arith, answers_iff a.status)

-- How far the waits and the requests of an attempt go beyond those of the rest.
attempt_size :
    (a : Attempt) (left : ℕ) (backoff : ℤ) (rest : Readiness)
    → (let r = attempt_once a.done_before a.request_error (probe a left backoff rest) in
        (r.requests ≤ suc rest.requests)
        × (length r.waits ≤ length rest.waits + (if left == 0 then 0 else 1)))
unfolding attempt_once probe stop sent waited wait_backoff
attempt_size a left backoff rest = ground arith

attempt_waits :
    (m : ℤ) (a : Attempt) (left : ℕ) (backoff : ℤ) (rest : Readiness)
    → backoff ≤ℤ m
    → All (λ d. d ≤ℤ m) rest.waits
    → All
        (λ d. d ≤ℤ m)
        (attempt_once a.done_before a.request_error (probe a left backoff rest)).waits
unfolding attempt_once probe stop sent waited wait_backoff
attempt_waits m a left backoff rest p ps = ground arith

abbrev pub later : List ℤ → List ℤ
later [] = []
later (x ∷ xs) = xs

attempt_later :
    (m : ℤ) (a : Attempt) (left : ℕ) (backoff : ℤ) (rest : Readiness)
    → All (λ d. d ≤ℤ m) rest.waits
    → All
        (λ d. d ≤ℤ m)
        (later (attempt_once a.done_before a.request_error (probe a left backoff rest)).waits)
unfolding attempt_once probe stop sent waited wait_backoff
attempt_later m a left backoff rest ps = ground arith

module _ (rt : Runtime) (c : Config rt) (meets : ℕ → Attempt) where
  -- One of the `left` attempts from `attempt` on finds the server ready, and those before it lead to it.
  abbrev pub Ready : ℕ → ℕ → Type 0
  Ready attempt left =
      (i : ℕ) × (i < left)
      × Finds (meets (attempt + i))
      × ((j : ℕ) → j < i → Leads (meets (attempt + j)))

  -- An attempt at the head of those from `attempt` on.
  Ready-here : (left attempt : ℕ) → Finds (meets attempt) → Ready attempt (suc left)
  Ready-here left attempt f = (
    0,
    omega arith,
    subst (λ n. Finds (meets n)) (omega arith) f,
    λ j below. absurd (omega arith),
  )

  all_lead :
      (attempt i : ℕ)
      → Leads (meets attempt)
      → ((j : ℕ) → j < i → Leads (meets (attempt + 1 + j)))
      → (j : ℕ) → j < suc i
      → Leads (meets (attempt + j))
  all_lead attempt i l ls zero below = subst (λ n. Leads (meets n)) (omega arith) l
  all_lead attempt i l ls (suc j) below =
      subst (λ n. Leads (meets n)) (omega arith) (ls j (omega arith))

  Ready-next :
      (left attempt : ℕ)
      → Leads (meets attempt)
      → Ready (attempt + 1) left
      → Ready attempt (suc left)
  Ready-next left attempt l (i, below, f, ls) =
      (suc i, omega arith, subst (λ n. Finds (meets n)) (omega arith) f, all_lead attempt i l ls)

  Ready-cases :
      (left attempt : ℕ)
      → Ready attempt (suc left)
      → Finds (meets attempt) ⊎ (Leads (meets attempt) × Ready (attempt + 1) left)
  Ready-cases left attempt (zero, below, f, ls) = inl (subst (λ n. Finds (meets n)) (omega arith) f)
  Ready-cases left attempt (suc i, below, f, ls) = inr (
    subst (λ n. Leads (meets n)) (omega arith) (ls 0 (omega arith)),
    (
      i,
      omega arith,
      subst (λ n. Finds (meets n)) (omega arith) f,
      λ j j<i. subst (λ n. Leads (meets n)) (omega arith) (ls (suc j) (omega arith)),
    ),
  )

  probe_from-Ready :
      (left attempt : ℕ) (backoff : ℤ)
      → (probe_from rt c meets left attempt backoff).error ≡ none
      → Ready attempt left
  unfolding probe_from stop
  probe_from-Ready zero attempt backoff h = cc
  probe_from-Ready (suc left) attempt backoff h =
      elim (attempt_nil (meets attempt) left backoff
        (probe_from rt c meets left (attempt + 1) (next_backoff rt c backoff)) h) [
          | inl f ↦ Ready-here left attempt f
          | inr g ↦
              let k = probe_from-Ready left (attempt + 1) (next_backoff rt c backoff) g.0 in
              Ready-next left attempt (g.1 (omega (arith, k.1))) k
        ]

  Ready-probe_from :
      (left attempt : ℕ) (backoff : ℤ)
      → Ready attempt left
      → (probe_from rt c meets left attempt backoff).error ≡ none
  unfolding probe_from
  Ready-probe_from zero attempt backoff r = absurd (omega (arith, r.1))
  Ready-probe_from (suc left) attempt backoff r =
      let rest = probe_from rt c meets left (attempt + 1) (next_backoff rt c backoff) in
      elim (Ready-cases left attempt r) [
        | inl f ↦ attempt-Finds (meets attempt) left backoff rest f
        | inr g ↦
            attempt-Leads (meets attempt) left backoff rest g.0
              (Ready-probe_from left (attempt + 1) (next_backoff rt c backoff) g.1)
      ]

  probe_from_size :
      (left attempt : ℕ) (backoff : ℤ)
      → (let r = probe_from rt c meets left attempt backoff in
          (r.requests ≤ left) × (length r.waits ≤ left - 1))
  unfolding probe_from stop
  probe_from_size zero attempt backoff = (omega arith, omega arith)
  probe_from_size (suc left) attempt backoff =
      let rest = probe_from rt c meets left (attempt + 1) (next_backoff rt c backoff) in
      let k = probe_from_size left (attempt + 1) (next_backoff rt c backoff) in
      let h = attempt_size (meets attempt) left backoff rest in ground (arith, k, h)

  next_backoff-le : (backoff : ℤ) → next_backoff rt c backoff ≤ℤ c.max_delay
  unfolding next_backoff
  next_backoff-le backoff = ground arith

  probe_from_waits :
      (left attempt : ℕ) (backoff : ℤ)
      → backoff ≤ℤ c.max_delay
      → All (λ d. d ≤ℤ c.max_delay) (probe_from rt c meets left attempt backoff).waits
  unfolding probe_from stop
  probe_from_waits zero attempt backoff h = tt
  probe_from_waits (suc left) attempt backoff h =
      attempt_waits c.max_delay (meets attempt) left backoff
        (probe_from rt c meets left (attempt + 1) (next_backoff rt c backoff)) h
        (probe_from_waits left (attempt + 1) (next_backoff rt c backoff) (next_backoff-le backoff))

  probe_from_later :
      (left attempt : ℕ) (backoff : ℤ)
      → All (λ d. d ≤ℤ c.max_delay) (later (probe_from rt c meets left attempt backoff).waits)
  unfolding probe_from stop
  probe_from_later zero attempt backoff = tt
  probe_from_later (suc left) attempt backoff =
      attempt_later c.max_delay (meets attempt) left backoff
        (probe_from rt c meets left (attempt + 1) (next_backoff rt c backoff))
        (probe_from_waits left (attempt + 1) (next_backoff rt c backoff) (next_backoff-le backoff))

  probes :
      (n : ℕ)
      → c.health_check_retries ≡ pos n
      → c.resilient_mode ≡ true
      → str_eq c.health_check_url [] ≡ false
      → wait_for_server_readiness rt c meets ≡ probe_from rt c meets n 0 c.initial_delay
  unfolding wait_for_server_readiness
  probes n h on url = ground (arith, ap pos_part h)

  -- The probe in resilient mode with a URL, for `HealthCheckRetries` at `n`. It returns nil exactly if
  -- one of the first `n` attempts is answered 200, and each before it goes on: the context is not done,
  -- the request can be made and has no answer or another status. It sends at most `n` requests; it
  -- waits at most `n - 1` times, or not at all if `n` is 0, after the first time for at most `MaxDelay`.
  pub readiness_outcome :
      (n : ℕ)
      → c.health_check_retries ≡ pos n
      → c.resilient_mode ≡ true
      → str_eq c.health_check_url [] ≡ false
      → (let r = wait_for_server_readiness rt c meets in
          (r.error ≡ none ↔ Ready 0 n)
          × (r.requests ≤ n)
          × (length r.waits ≤ n - 1)
          × All (λ d. d ≤ℤ c.max_delay) (later r.waits))
  readiness_outcome n h on url = rw (probes n h on url) (
    (probe_from-Ready n 0 c.initial_delay, Ready-probe_from n 0 c.initial_delay),
    (probe_from_size n 0 c.initial_delay).0,
    (probe_from_size n 0 c.initial_delay).1,
    probe_from_later n 0 c.initial_delay,
  )
