-- ===== src/Queue/Fifo.antt =====
-- pkg/queue/queue.go: what each call does to the entries, and histories of calls.
use logflux_go_sdk.Prelude.{
  true, false, ℕ, ◌≡◌, refl, sym, ◌∙◌, List, [], ◌∷◌, ◌++◌, Option, none, some, arith, length, drop,
  take, if◌then◌else◌, append_assoc, append-nil, take-append-drop, take_all, drop_all,
}
use logflux_go_sdk.Queue.{
  Queue, enqueue, compact_locked, dequeue, dequeue_batch, clear, close, pop_front, cut, close_with,
  close_channel,
}
use logflux_go_sdk.Queue.Invariant.{
  IsValid, Grows, enqueue-IsValid, dequeue-IsValid, dequeue_batch-IsValid, clear-IsValid,
  close_total,
}

module _ {A : Type 0} where
  pub items-compact : (q : Queue A) → (compact_locked q).items ≡ q.items
  unfolding compact_locked
  items-compact q = ground arith

  -- A refused entry leaves the queue alone, an accepted one stands at its end.
  pub enqueue_refused : (q : Queue A) (x : A) → (enqueue q x).1 ≡ false → (enqueue q x).0 ≡ q
  unfolding enqueue
  enqueue_refused q x h = ground arith

  pub enqueue_accepted :
      (q : Queue A) (x : A)
      → (enqueue q x).1 ≡ true
      → ((enqueue q x).0.items ≡ q.items ++ x ∷ [])
        × ((enqueue q x).0.not_empty ≡ true)
        × ((enqueue q x).0.closed ≡ q.closed)
        × ((enqueue q x).0.close_ch ≡ q.close_ch)
        × (q.closed ≡ false)
  unfolding enqueue
  enqueue_accepted q x h = ground arith

  -- `Dequeue` in terms of the entries.
  pub dequeue_empty : (q : Queue A) → q.items ≡ [] → dequeue q ≡ (q, none)
  unfolding dequeue
  dequeue_empty q e = simp (e, pop_front)

  pub dequeue_front :
      (q : Queue A) (x : A) (xs : List A)
      → q.items ≡ x ∷ xs
      → ((dequeue q).1 ≡ some x)
        × ((dequeue q).0.items ≡ xs)
        × ((dequeue q).0.closed ≡ q.closed)
        × ((dequeue q).0.not_empty ≡ q.not_empty)
        × ((dequeue q).0.close_ch ≡ q.close_ch)
  unfolding dequeue
  dequeue_front q x xs e = ground arith

  cut_lem :
      (q : Queue A) (k : ℕ)
      → ((cut q k).0.items ≡ drop k q.items)
        × ((cut q k).1 ≡ take k q.items)
        × ((cut q k).0.closed ≡ q.closed)
        × ((cut q k).0.not_empty ≡ q.not_empty)
        × ((cut q k).0.close_ch ≡ q.close_ch)
  unfolding cut compact_locked
  cut_lem q k = ground arith

  -- `DequeueBatch` in terms of the entries.
  pub dequeue_batch_lem :
      (q : Queue A) (n : ℕ)
      → ((dequeue_batch q n).0.items ≡ drop n q.items)
        × ((dequeue_batch q n).1 ≡ take n q.items)
        × ((dequeue_batch q n).0.closed ≡ q.closed)
        × ((dequeue_batch q n).0.not_empty ≡ q.not_empty)
        × ((dequeue_batch q n).0.close_ch ≡ q.close_ch)
  unfolding dequeue_batch
  dequeue_batch_lem q n = ground (
    arith,
    cut_lem q n,
    cut_lem q (length q.items),
    take_all n q.items,
    drop_all n q.items,
    take_all (length q.items) q.items,
    drop_all (length q.items) q.items,
    take_all 0 q.items,
    drop_all 0 q.items,
  )

-- The calls of a client on one queue, in the order in which they take the mutex.
pub data Op (A : Type 0) : Type 0 where
  put : A → Op A
  get wipe shut : Op A
  get_batch : ℕ → Op A

module _ {A : Type 0} where
  -- The entries that come out of an optional result.
  abbrev pub given : Option A → List A
  given none = []
  given (some x) = x ∷ []

  -- The queue after `Close`; a panic would leave it as it was.
  abbrev pub after_close : Queue A → Option (Queue A) → Queue A
  after_close q none = q
  after_close q (some r) = r

  -- The queue after a call, the entries that it took in, and those that it gave out or cleared.
  unfoldable pub apply : Queue A → Op A → Queue A × List A × List A
  apply q (put x) = let (q', taken) = enqueue q x in (q', if taken then x ∷ [] else [], [])
  apply q get = let (q', out) = dequeue q in (q', [], given out)
  apply q (get_batch n) = let (q', out) = dequeue_batch q n in (q', [], out)
  apply q wipe = (clear q, [], q.items)
  apply q shut = (after_close q (close q), [], [])

  unfoldable pub run : Queue A → List (Op A) → Queue A × List A × List A
  run q [] = (q, [], [])
  run q (op ∷ ops) =
      let (q', ins, outs) = apply q op in
      let (r, ins', outs') = run q' ops in (r, ins ++ ins', outs ++ outs')

  get_order :
      (q : Queue A) (xs : List A)
      → q.items ≡ xs
      → q.items ++ [] ≡ given (dequeue q).1 ++ (dequeue q).0.items
  get_order q [] e = ground (arith, dequeue_empty q e)
  get_order q (x ∷ xs) e = ground (arith, dequeue_front q x xs e, append-nil xs)

  items-close : (q : Queue A) → (after_close q (close q)).items ≡ q.items
  unfolding close close_channel close_with
  items-close q = ground arith

  put_order :
      (q : Queue A) (x : A)
      → q.items ++ (if (enqueue q x).1 then x ∷ [] else []) ≡ (enqueue q x).0.items
  unfolding enqueue
  put_order q x = ground (arith, append-nil q.items)

  batch_order :
      (q : Queue A) (n : ℕ) → q.items ++ [] ≡ (dequeue_batch q n).1 ++ (dequeue_batch q n).0.items
  batch_order q n =
      ground (arith, dequeue_batch_lem q n, append-nil q.items, take-append-drop n q.items)

  -- One call: what was there and what came in is what went out and what is left, in order.
  pub apply_order :
      (q : Queue A) (op : Op A) → q.items ++ (apply q op).1 ≡ (apply q op).2 ++ (apply q op).0.items
  unfolding apply clear
  apply_order q (put x) = put_order q x
  apply_order q get = get_order q q.items refl
  apply_order q (get_batch n) = batch_order q n
  apply_order q wipe = refl
  apply_order q shut = append-nil q.items ∙ sym (items-close q)

  splice :
      (old ins outs mid ins' outs' left : List A)
      → old ++ ins ≡ outs ++ mid
      → mid ++ ins' ≡ outs' ++ left
      → old ++ (ins ++ ins') ≡ (outs ++ outs') ++ left
  splice old ins outs mid ins' outs' left p r =
      rw (← append_assoc old ins ins', p, append_assoc outs mid ins', r)
        (sym (append_assoc outs outs' left))

  -- Over any history of calls the queue is first in, first out, and neither loses an accepted entry
  -- nor makes one up: the entries held at the start, then those accepted, are those handed out or
  -- cleared, then those still held, in the same order.
  pub run_order :
      (q : Queue A) (ops : List (Op A))
      → q.items ++ (run q ops).1 ≡ (run q ops).2 ++ (run q ops).0.items
  unfolding run
  run_order q [] = append-nil q.items
  run_order q (op ∷ ops) =
      splice q.items (apply q op).1 (apply q op).2 (apply q op).0.items (run (apply q op).0 ops).1
        (run (apply q op).0 ops).2 (run (apply q op).0 ops).0.items (apply_order q op)
        (run_order (apply q op).0 ops)

  grow-pop_front : (q : Queue A) (xs : List A) → (pop_front q xs).0.grow ≡ q.grow
  unfolding pop_front compact_locked
  grow-pop_front q [] = refl
  grow-pop_front q (x ∷ xs) = ground arith

  grow-apply : (q : Queue A) (op : Op A) → (apply q op).0.grow ≡ q.grow
  unfolding apply enqueue dequeue dequeue_batch clear close cut compact_locked close_with
  grow-apply q (put x) = ground arith
  grow-apply q get = grow-pop_front q q.items
  grow-apply q (get_batch n) = ground arith
  grow-apply q wipe = refl
  grow-apply q shut = ground arith

  apply-IsValid : (q : Queue A) (op : Op A) → Grows q.grow → IsValid q → IsValid (apply q op).0
  unfolding apply
  apply-IsValid q (put x) g v = enqueue-IsValid q x g v
  apply-IsValid q get g v = dequeue-IsValid q v
  apply-IsValid q (get_batch n) g v = dequeue_batch-IsValid q n v
  apply-IsValid q wipe g v = clear-IsValid q v
  apply-IsValid q shut g v = let c = close_total q v in rw c.1 c.2

  -- The size bound and the other invariants hold after any history of calls on a valid queue.
  run-IsValid : (q : Queue A) (ops : List (Op A)) → Grows q.grow → IsValid q → IsValid (run q ops).0
  unfolding run
  run-IsValid q [] g v = v
  run-IsValid q (op ∷ ops) g v =
      run-IsValid (apply q op).0 ops (rw (grow-apply q op) g) (apply-IsValid q op g v)
