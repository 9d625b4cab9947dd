-- ===== src/Queue.antt =====
-- pkg/queue/queue.go. A method that holds the mutex is one atomic function; one that updates the
-- receiver returns the new queue. Entries are only moved, so their type is a parameter.
pub mod Fifo
pub mod Invariant
mod Tests
use logflux_go_sdk.Prelude.{
  ℕ, suc, ◌+◌, ◌-◌, ◌*◌, ◌/◌, ℤ, pos, pos_part, leb_ℤ, Bool, true, false, ◌&&◌, ◌||◌, List, [], ◌∷◌,
  ◌++◌, Option, none, some, if◌then◌else◌, ltb, leb, ◌==◌, length, take, drop,
}

-- `items` and `capacity` are the slice and its cap. `not_empty` is the token in the channel of
-- capacity 1, `close_ch` tells whether that channel is closed. `grow` is the capacity that the
-- runtime's `append` gives a full slice, from the old capacity and the length that is needed.
pub record Queue {ℓ} (A : Type ℓ) : Type ℓ where
  pub items : List A
  pub capacity : ℕ
  pub max_size : ℕ
  pub not_empty : Bool
  pub close_ch : Bool
  pub closed : Bool
  pub grow : ℕ → ℕ → ℕ

-- `close(ch)`: `none` is the panic of closing a closed channel.
unfoldable pub close_channel : Bool → Option Bool
close_channel true = none
close_channel false = some true

module _ {ℓ} {A : Type ℓ} where
  unfoldable pub new_queue : (ℕ → ℕ → ℕ) → ℤ → Queue A
  new_queue grow max_size =
      let size = if leb_ℤ max_size (pos 0) then 1000 else pos_part max_size in
      record {
        items = [];
        capacity = size;
        max_size = size;
        not_empty = false;
        close_ch = false;
        closed = false;
        grow = grow;
      }

  -- cap(append(q.items, entry))
  unfoldable pub append_capacity : Queue A → ℕ
  append_capacity q =
      if ltb (length q.items) q.capacity then q.capacity else q.grow q.capacity (length q.items + 1)

  unfoldable pub enqueue : Queue A → A → Queue A × Bool
  unfolding append_capacity
  enqueue q entry = if q.closed || leb q.max_size (length q.items) then (q, false) else (
    record q { items = q.items ++ entry ∷ []; capacity = append_capacity q; not_empty = true },
    true,
  )

  unfoldable pub compact_locked : Queue A → Queue A
  compact_locked q =
      if ltb (q.max_size * 2) q.capacity && ltb (length q.items) (q.capacity / 4)
      then record q { capacity = q.max_size }
      else q

  -- The entry at the front and the rest; slicing off the front takes its place from the capacity.
  pop_front : Queue A → List A → Queue A × Option A
  pop_front q [] = (q, none)
  pop_front q (entry ∷ rest) =
      (compact_locked (record q { items = rest; capacity = q.capacity - 1 }), some entry)

  unfoldable pub dequeue : Queue A → Queue A × Option A
  unfolding pop_front compact_locked
  dequeue q = pop_front q q.items

  -- The first `k` entries and the queue without them.
  cut : Queue A → ℕ → Queue A × List A
  cut q k = (
    compact_locked (record q { items = drop k q.items; capacity = q.capacity - k }),
    take k q.items,
  )

  -- `n` is a Go int that the callers keep at 0 or more.
  unfoldable pub dequeue_batch : Queue A → ℕ → Queue A × List A
  unfolding cut compact_locked
  dequeue_batch q n =
      if length q.items == 0
      then (q, [])
      else cut q (if ltb (length q.items) n then length q.items else n)

  unfoldable pub size : Queue A → ℕ
  size q = length q.items

  unfoldable pub is_full : Queue A → Bool
  is_full q = leb q.max_size (length q.items)

  unfoldable pub is_empty : Queue A → Bool
  is_empty q = length q.items == 0

  unfoldable pub clear : Queue A → Queue A
  clear q = record q { items = [] }

  -- Go evaluates `close(q.closeCh)` after `q.closed = true`.
  unfoldable pub close_with : Queue A → Option Bool → Option (Queue A)
  close_with q none = none
  close_with q (some ch) = some (record q { close_ch = ch })

  unfoldable pub close : Queue A → Option (Queue A)
  unfolding close_channel close_with
  close q =
      if q.closed
      then some q
      else close_with (record q { closed = true }) (close_channel q.close_ch)

  unfoldable pub get_items : Queue A → List A
  get_items q = q.items

  -- The test after an empty `Dequeue` in `DequeueWithContext`.
  unfoldable pub must_stop : Queue A → Bool
  must_stop q = q.closed && length q.items == 0
