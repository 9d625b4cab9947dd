-- ===== src/Logger/Tests.antt =====
-- The theorem about the asynchronous logger of pkg/logger/logger.go at a concrete run, in which Close
-- has closed the client while the worker still holds an entry.
use logflux_go_sdk.Prelude.{◌≡◌, refl, pos, true, false, [], ◌∷◌, codes, str_eq}
use logflux_go_sdk.Logger.{
  Entry, AsyncLogger, Reach, start, after, put, receive, close_done, close_client, new_async_logger,
  enqueue, waiting, sending, format_message, with_level,
}
use logflux_go_sdk.Logger.Order.{InOrder, Reach-InOrder}

prefixed : format_message (codes "api") (codes "up") ≡ codes "[api] up"
unfolding format_message str_eq
prefixed = refl

abbrev up : Entry
up = with_level (pos 7) (codes "up") 900

abbrev late : AsyncLogger
late = record {
  prefix = codes "api";
  buffer_size = 2;
  log_chan = [];
  done = true;
  client_closed = true;
  worker = sending up;
  taken_in = up ∷ [];
  calls = [];
}

abbrev holding : AsyncLogger
holding = record late { done = false; client_closed = false }

abbrev filled : AsyncLogger
filled = record holding { worker = waiting; log_chan = up ∷ [] }

late-Reach : Reach (codes "api") 2 late
unfolding new_async_logger enqueue
late-Reach =
    after (record holding { done = true }) late
      (after holding (record holding { done = true })
        (after filled holding
          (after (new_async_logger (codes "api") 2) filled start
            (put (new_async_logger (codes "api") 2) up))
          (receive filled up [] refl refl))
        (close_done holding refl))
      (close_client (record holding { done = true }) refl)

Reach-InOrder_example : InOrder late
Reach-InOrder_example = Reach-InOrder (codes "api") 2 late late-Reach
