-- ===== src/Queue/Invariant.antt =====
-- The representation invariant of pkg/queue/queue.go.
use logflux_go_sdk.Prelude.{
  ℕ, ◌+◌, ◌-◌, ◌≤◌, ◌<◌, ◌≡◌, refl, ℤ, Bool, true, false, inl, inr, List, some, arith, length,
  length-append, ◌==◌, length-drop, ◌∷◌, [], ltb, if◌then◌else◌, Bool-cases,
}
use logflux_go_sdk.Queue.{
  Queue, new_queue, enqueue, compact_locked, dequeue, dequeue_batch, clear, close, pop_front, cut,
}

-- The slice fits its backing array, the bound holds, and the channel is closed as the flag says.
pub record IsValid {ℓ} {A : Type ℓ} (q : Queue A) : Type 0 where
  pub bounded : length q.items ≤ q.max_size
  pub stored : length q.items ≤ q.capacity
  pub in_step : q.close_ch ≡ q.closed
  pub roomy : 0 < q.max_size

-- What the runtime promises of `append`: room for the length that is needed.
abbrev pub Grows : (ℕ → ℕ → ℕ) → Type 0
Grows grow = (old needed : ℕ) → needed ≤ grow old needed

module _ {ℓ} {A : Type ℓ} where
  pub new_queue-IsValid :
      (grow : ℕ → ℕ → ℕ) (max_size : ℤ) → IsValid (new_queue {A = A} grow max_size)
  unfolding new_queue
  new_queue-IsValid grow max_size = ground arith

  pub enqueue-IsValid : (q : Queue A) (x : A) → Grows q.grow → IsValid q → IsValid (enqueue q x).0
  unfolding enqueue
  enqueue-IsValid q x g v =
      ground (arith, g q.capacity (length q.items + 1), length-append q.items (x ∷ []))

  compact_locked-IsValid : (q : Queue A) → IsValid q → IsValid (compact_locked q)
  unfolding compact_locked
  compact_locked-IsValid q v = ground arith

  pop_front-IsValid :
      (q : Queue A) (xs : List A) → q.items ≡ xs → IsValid q → IsValid (pop_front q xs).0
  unfolding pop_front
  pop_front-IsValid q [] e v = v
  pop_front-IsValid q (x ∷ xs) e v =
      compact_locked-IsValid (record q { items = xs; capacity = q.capacity - 1 }) (ground arith)

  pub dequeue-IsValid : (q : Queue A) → IsValid q → IsValid (dequeue q).0
  unfolding dequeue
  dequeue-IsValid q v = pop_front-IsValid q q.items refl v

  cut-IsValid : (q : Queue A) (k : ℕ) → IsValid q → IsValid (cut q k).0
  unfolding cut
  cut-IsValid q k v = compact_locked-IsValid _ (ground (arith, length-drop k q.items))

  pub dequeue_batch-IsValid : (q : Queue A) (n : ℕ) → IsValid q → IsValid (dequeue_batch q n).0
  unfolding dequeue_batch
  dequeue_batch-IsValid q n v = elim (Bool-cases (length q.items == 0)) [
    | inl e ↦ rw e v
    | inr e ↦ rw e (cut-IsValid q (if ltb (length q.items) n then length q.items else n) v)
  ]

  pub clear-IsValid : (q : Queue A) → IsValid q → IsValid (clear q)
  unfolding clear
  clear-IsValid q v = ground arith

  close_cases :
      (q : Queue A) (b : Bool)
      → q.closed ≡ b
      → IsValid q
      → (r : Queue A) × (close q ≡ some r) × IsValid r × (r.closed ≡ true) × (r.items ≡ q.items)
  unfolding close
  close_cases q true e v = (q, ground arith, v, e, refl)
  close_cases q false e v =
      (record q { closed = true; close_ch = true }, ground arith, ground arith, refl, refl)

  -- On a valid queue `Close` never closes a closed channel, so it does not panic; it keeps the
  -- entries and the invariant, and leaves the queue closed.
  pub close_total :
      (q : Queue A)
      → IsValid q
      → (r : Queue A) × (close q ≡ some r) × IsValid r × (r.closed ≡ true) × (r.items ≡ q.items)
  close_total q v = close_cases q q.closed refl v
