-- ===== src/Client/Resilient/Workers/Exit.antt =====
-- pkg/client/resilient_client.go: the workers leave once `Close` has closed the queue.
use logflux_go_sdk.Prelude.{
  ℕ, ◌+◌, ◌*◌, ◌≤◌, ◌≡◌, refl, ◌⊎◌, inl, inr, Bool, true, false, Bool-cases, List, [], ◌∷◌, Option,
  none, some, arith, length, All, ltb,
}
use logflux_go_sdk.Retry.Errors.{GoError}
use logflux_go_sdk.Retry.{Round, done, retry}
use logflux_go_sdk.Queue.{Queue, dequeue, must_stop}
use logflux_go_sdk.Client.Resilient.State.{ResilientClient, QueueEntry}
use logflux_go_sdk.Client.Resilient.Workers.{
  Setting, Worker, polling, found_empty, blocked, draining, pausing, exited, holding, gathering,
  sending, WorkerStep, found, missed, stops, waits, sees_close, drains, drained, limited, unlimited,
  paused, gathers, delivers, System,
}
use logflux_go_sdk.Client.Resilient.Workers.Conservation.{sum_of}
use logflux_go_sdk.Client.Resilient.Workers.Shutdown.{rank, signal_steps, moves_on, Run, Run-steps}

signal_steps-le : (b : Bool) → signal_steps b ≤ 3
signal_steps-le true = omega arith
signal_steps-le false = omega arith

rank-le : (w : Worker) → rank w ≤ 7
rank-le exited = omega arith
rank-le draining = omega arith
rank-le blocked = omega arith
rank-le found_empty = omega arith
rank-le polling = omega arith
rank-le pausing = omega arith
rank-le (sending entries) = omega arith
rank-le (gathering e) = omega arith
rank-le (holding e) = omega arith

sum_of-rank-le : (ws : List Worker) → sum_of rank ws ≤ 7 * length ws
sum_of-rank-le [] = omega arith
sum_of-rank-le (w ∷ ws) = omega (arith, rank-le w, sum_of-rank-le ws)

module _ (g : Setting) where
  -- A worker has left, or has a step that counts.
  abbrev pub CanMove : System → Worker → Type 0
  CanMove s w =
      (w ≡ exited)
      ⊎ ((c' : ResilientClient) × (w' : Worker) × (step : WorkerStep g s.cancelled s.client w c' w')
          × (moves_on step ≡ 1))

  module _ (rounds : List (Round g.runtime)) (res : Option GoError)
      (ends : retry g.runtime g.config rounds ≡ done res) where
    looks :
        (s : System) (r : Queue QueueEntry × Option QueueEntry)
        → dequeue s.client.queue ≡ r
        → CanMove s polling
    looks s (q, none) h = inr (_, _, missed q h, refl)
    looks s (q, some e) h = inr (_, _, found q e h, refl)

    empties :
        (s : System) (r : Queue QueueEntry × Option QueueEntry)
        → dequeue s.client.queue ≡ r
        → CanMove s draining
    empties s (q, none) h = inr (_, _, drained q h, refl)
    empties s (q, some e) h = inr (_, _, drains q e h, refl)

    worker_moves : (s : System) (w : Worker) → s.client.queue.close_ch ≡ true → CanMove s w
    worker_moves s polling h = looks s _ refl
    worker_moves s found_empty h = elim (Bool-cases (must_stop s.client.queue)) [
      | inl yes_stop ↦ inr (_, _, stops yes_stop, refl)
      | inr no_stop ↦ inr (_, _, waits no_stop, refl)
    ]
    worker_moves s blocked h = inr (_, _, sees_close h, refl)
    worker_moves s draining h = empties s _ refl
    worker_moves s pausing h = inr (_, _, paused, refl)
    worker_moves s exited h = inl refl
    worker_moves s (holding e) h = elim (Bool-cases (ltb 0 s.client.rate_limit_pause_until)) [
      | inl early ↦ inr (_, _, limited e 0 early, refl)
      | inr late ↦ inr (_, _, unlimited e 0 late, refl)
    ]
    worker_moves s (gathering e) h = inr (_, _, gathers e, refl)
    worker_moves s (sending entries) h = inr (_, _, delivers entries 0 rounds res ends, refl)

    workers_move :
        (s : System) (ws : List Worker) → s.client.queue.close_ch ≡ true → All (CanMove s) ws
    workers_move s [] h = tt
    workers_move s (w ∷ ws) h = (worker_moves s w h, workers_move s ws h)

    -- Once the queue is closed, the workers leave, so the `wg.Wait` of `Close` returns: in every order of
    -- steps the workers take at most 3 steps, 8 for each entry in the queue and 7 for each worker, not
    -- counting the attempts of a delivery; and at any time each worker has left or has a step to take. A
    -- delivery must be able to end, which it is if some script of its rounds ends the retry loop.
    pub workers_exit :
        {s : System} {n : ℕ} {t : System}
        → s.client.queue.closed ≡ true
        → s.client.queue.close_ch ≡ true
        → Run g s n t
        → (n ≤ 3 + 8 * length s.client.queue.items + 7 * length s.workers)
          × All (CanMove t) t.workers
    workers_exit {s = s} {t = t} shut channel r =
        let (bound, still_shut) = Run-steps g r (shut, channel) in
        (
          omega (arith, bound, sum_of-rank-le s.workers, signal_steps-le s.client.queue.not_empty),
          workers_move t t.workers still_shut.1,
        )
