-- ===== src/Queue/Tests.antt =====
-- Tests of pkg/queue/queue.go, and its theorems at concrete inputs.
use logflux_go_sdk.Prelude.{
  ℕ, ◌+◌, ◌*◌, ◌≡◌, refl, negsuc, true, false, List, [], ◌∷◌, ◌++◌, none, some, arith,
}
use logflux_go_sdk.Queue.{
  Queue, new_queue, enqueue, dequeue, dequeue_batch, close, close_channel, size,
}
use logflux_go_sdk.Queue.Invariant.{IsValid, Grows, close_total}
use logflux_go_sdk.Queue.Fifo.{Op, put, get, get_batch, shut, apply, run, run_order}

-- `append` with twice the room.
abbrev doubling : ℕ → ℕ → ℕ
doubling old needed = old * 2 + needed

abbrev pair : Queue ℕ
pair = record {
  items = 7 ∷ 8 ∷ [];
  capacity = 3;
  max_size = 3;
  not_empty = true;
  close_ch = false;
  closed = false;
  grow = doubling;
}

abbrev history : List (Op ℕ)
history = put 9 ∷ put 10 ∷ get ∷ get_batch 5 ∷ put 11 ∷ shut ∷ put 12 ∷ []

default_size : size (new_queue {A = ℕ} doubling (negsuc 4)) ≡ 0
unfolding new_queue size
default_size = refl

run-pair : ((run pair history).1 ≡ 9 ∷ 11 ∷ []) × ((run pair history).2 ≡ 7 ∷ 8 ∷ 9 ∷ [])
unfolding run apply enqueue dequeue dequeue_batch close
run-pair = (refl, refl)

close_channel_panics : close_channel true ≡ none
unfolding close_channel
close_channel_panics = refl

pair-IsValid : IsValid pair
pair-IsValid = ground arith

doubling-Grows : Grows doubling
doubling-Grows old needed = omega arith

run_order_example :
    7 ∷ 8 ∷ (run pair history).1 ≡ (run pair history).2 ++ (run pair history).0.items
run_order_example = run_order pair history

close_total_example :
    (r : Queue ℕ) × (close pair ≡ some r) × IsValid r × (r.closed ≡ true) × (r.items ≡ 7 ∷ 8 ∷ [])
close_total_example = close_total pair pair-IsValid
