-- ===== src/Client/Resilient/Samples.antt =====
-- pkg/client/resilient_client.go and pkg/retry/retry.go: a client and a configuration that the tests run.
use logflux_go_sdk.Prelude.{
  ℕ, ◌+◌, pos, true, false, [], none, codes, replicate, pos_part, ◌*◌, ◌^◌, ltb, leb,
}
use logflux_go_sdk.Retry.{Runtime, Config}
use logflux_go_sdk.Client.Resilient.State.{ResilientClient, no_drops}
use logflux_go_sdk.Client.Resilient.Enqueue.{Draws, Message}

abbrev pub exact : ℕ → ℕ → ℕ
exact old needed = needed

-- A client in failsafe mode whose queue has room for one entry.
abbrev pub fresh : ResilientClient
fresh = record {
  config = record {
    node = codes "host";
    queue_size = pos 1;
    flush_interval = pos 5;
    batch_size = pos 100;
    http_timeout = pos 30;
    worker_count = pos 2;
    failsafe_mode = true;
    enable_compression = true;
    hook = none;
  };
  encryptor = record { aes_key = replicate 32 7 };
  key_uuid = codes "key";
  queue = record {
    items = [];
    capacity = 1;
    max_size = 1;
    not_empty = false;
    close_ch = false;
    closed = false;
    grow = exact;
  };
  total_sent = 0;
  total_queued = 0;
  total_dropped = 0;
  drop_reasons = no_drops;
  last_send_error = [];
  last_send_time = 0;
  handshake_ok = true;
  rate_limit_limit = pos 0;
  rate_limit_remaining = pos 0;
  rate_limit_reset = pos 0;
  rate_limit_pause_until = 0;
  quota_blocked = λ category. false;
  closed = false;
}

abbrev pub draws : Draws
draws = record { clock = record { now = 1000; year_ago = 10 }; id = codes "a1"; created_at = 1000 }

abbrev pub started : Message
started = record {
  text = codes "started";
  timestamp = 900;
  level = pos 7;
  entry_type = pos 0;
  payload_type = pos 0;
  labels = none;
  search_tokens = [];
}

-- Floats that are whole numbers.
abbrev pub whole : Runtime
whole = record {
  Float = ℕ;
  of_int = pos_part;
  to_int = pos;
  times = λ x y. x * y;
  pow = λ x y. x ^ y;
  add = λ x y. x + y;
  one = 1;
  two = 2;
  quarter = 0;
  lt = ltb;
  le = leb;
  duration_text = λ d. codes "1m0s";
}

abbrev pub once : Config whole
once = record {
  max_retries = pos 1;
  initial_delay = pos 5;
  max_delay = pos 8;
  backoff_factor = 2;
  jitter_enabled = false;
  resilient_mode = false;
  health_check_url = [];
  health_check_timeout = pos 0;
  health_check_retries = pos 0;
}
