-- ===== src/Client/Resilient/Workers/Wakeup.antt =====
-- pkg/queue/queue.go with pkg/client/resilient_client.go: the signal of the queue over one step of a worker.
use logflux_go_sdk.Prelude.{ℕ, ◌+◌, refl, sym, ap, ◌∙◌, inl, inr, Bool, arith, length}
use logflux_go_sdk.Queue.{must_stop}
use logflux_go_sdk.Client.Resilient.State.{ResilientClient}
use logflux_go_sdk.Client.Resilient.Workers.{
  Setting, Worker, WorkerStep, found, missed, stops, waits, sees_cancel, sees_close, sees_entry,
  drains, drained, limited, unlimited, paused, pause_cancelled, gathers, attempts, delivers, gather,
  re_enqueue,
}
use logflux_go_sdk.Client.Resilient.Workers.Gains.{send_multipart-Same}
use logflux_go_sdk.Client.Resilient.Workers.Conservation.{dequeue-none}
use logflux_go_sdk.Client.Resilient.Workers.Signals.{
  active, gone, in_drain, Live, re_enqueue-Filled, Filled-Live, dequeue-Fewer, gather-Fewer,
  Fewer-Live, deliver_queue,
}

module _ (g : Setting) where
  pub step-Live :
      (cancelled : Bool) (c c' : ResilientClient) (w w' : Worker) (a b d : ℕ)
      → WorkerStep g cancelled c w c' w'
      → Live cancelled c.queue (active w + a) (gone w + b) (in_drain w + d)
      → Live cancelled c'.queue (active w' + a) (gone w' + b) (in_drain w' + d)
  unfolding must_stop
  step-Live k c c' w w' a b d (found q e h) v =
      Fewer-Live k c.queue q a (0 + b) (0 + d) (dequeue-Fewer c.queue q e c.queue.items refl h) v
  step-Live k c c' w w' a b d (missed q h) v =
      let (same, empty) = dequeue-none c.queue q c.queue.items refl h in
      rw same (record {
        woken = inr (inl (ap length empty));
        left = v.left;
        drained_closed = v.drained_closed;
        channel = v.channel;
      })
  step-Live k c c' w w' a b d (stops h) v = record {
    woken = ground (arith, v.woken, h);
    left = ground (arith, v.left, h);
    drained_closed = v.drained_closed;
    channel = v.channel;
  }
  step-Live k c c' w w' a b d (waits h) v = v
  step-Live k c c' w w' a b d (sees_cancel h) v = record {
    woken = inl h;
    left = inl h;
    drained_closed = v.drained_closed;
    channel = v.channel;
  }
  step-Live k c c' w w' a b d (sees_close h) v = record {
    woken = inr (inr (inr (omega arith)));
    left = v.left;
    drained_closed = inr (sym v.channel ∙ h);
    channel = v.channel;
  }
  step-Live k c c' w w' a b d (sees_entry h) v = record {
    woken = inr (inr (inr (omega arith)));
    left = v.left;
    drained_closed = v.drained_closed;
    channel = v.channel;
  }
  step-Live k c c' w w' a b d (drains q e h) v =
      let f =
        Fewer-Live k c.queue q a (0 + b) (1 + d) (dequeue-Fewer c.queue q e c.queue.items refl h)
          v in
      record {
        woken = f.woken;
        left = f.left;
        drained_closed = ground (arith, f.drained_closed);
        channel = f.channel;
      }
  step-Live k c c' w w' a b d (drained q h) v =
      let (same, empty) = dequeue-none c.queue q c.queue.items refl h in
      rw same (record {
        woken = inr (inl (ap length empty));
        left = ground (arith, v.drained_closed, ap length empty);
        drained_closed = ground (arith, v.drained_closed);
        channel = v.channel;
      })
  step-Live k c c' w w' a b d (limited e now h) v =
      Filled-Live k c.queue (re_enqueue c e).queue (1 + a) (0 + b) (0 + d) (re_enqueue-Filled c e) v
  step-Live k c c' w w' a b d (unlimited e now h) v = v
  step-Live k c c' w w' a b d paused v = v
  step-Live k c c' w w' a b d (pause_cancelled h) v = record {
    woken = inl h;
    left = inl h;
    drained_closed = v.drained_closed;
    channel = v.channel;
  }
  step-Live k c c' w w' a b d (gathers e) v =
      Fewer-Live k c.queue (gather c e).0.queue a (0 + b) (0 + d) (gather-Fewer c e) v
  step-Live k c c' w w' a b d (attempts entries now draws answer) v =
      rw ((send_multipart-Same g.primitives g.format g.build_text c now draws entries answer).queue)
        v
  step-Live k c c' w w' a b d (delivers entries now rounds res h) v =
      rw (deliver_queue g.runtime.duration_text c now (length entries) res) v
