-- ===== src/Sdk/Init.antt =====
-- logflux.go: Init and its variants. What the options say of the retries goes to the retryer, which is no
-- part of the client's state. An initialisation holds the lock, so it is one step.
pub mod Start
use logflux_go_sdk.Prelude.{
  ℕ, ℤ, pos, leb_ℤ, ltb_ℤ, Bool, true, false, Option, none, some, [], if◌then◌else◌, Str, str_eq,
  codes, Except, ok, err,
}
use logflux_go_sdk.Models.{LogEntry}
use logflux_go_sdk.Breadcrumbs.{new_breadcrumb_ring}
use logflux_go_sdk.Config.{Config, ConfigError, Strconv, load_config_from_env}
use logflux_go_sdk.Payload.{configure}
use logflux_go_sdk.Payload.Float.{Float64, float_one, float_zero, float_le}
use logflux_go_sdk.Payload.Sampler.{new_sampler}
use logflux_go_sdk.Retry.Errors.{seconds_duration}
use logflux_go_sdk.Client.Resilient.State.{ClientConfig, ResilientClient}
use logflux_go_sdk.Client.Connect.{
  Services, ConnectError, default_resilient_client_config, new_resilient_client_with_handshake,
}
use logflux_go_sdk.Sdk.{Sdk, SendHooks}

pub record Options : Type 0 where
  pub api_key : Str
  pub node : Str
  pub source : Str
  pub environment : Str
  pub release : Str
  pub custom_endpoint_url : Str
  pub queue_size : ℤ
  pub flush_interval : ℤ
  pub batch_size : ℤ
  pub worker_count : ℤ
  pub http_timeout : ℤ
  pub failsafe : Bool
  pub enable_compression : Bool
  pub max_breadcrumbs : ℤ
  pub sample_rate : Float64
  pub before_send : Option (LogEntry → Option LogEntry)
  pub hooks : SendHooks

-- A positive option replaces the default.
abbrev pub positive_option : ℤ → ℤ → ℤ
positive_option n default = if ltb_ℤ (pos 0) n then n else default

unfoldable pub config_of_options : Options → ClientConfig
unfolding default_resilient_client_config
config_of_options opts =
    let cfg = default_resilient_client_config in
    record {
      node = opts.node;
      queue_size = positive_option opts.queue_size cfg.queue_size;
      flush_interval = positive_option opts.flush_interval cfg.flush_interval;
      batch_size = positive_option opts.batch_size cfg.batch_size;
      http_timeout = positive_option opts.http_timeout cfg.http_timeout;
      worker_count = positive_option opts.worker_count cfg.worker_count;
      failsafe_mode = opts.failsafe;
      enable_compression = opts.enable_compression;
      hook = opts.before_send;
    }

-- The client of the constructor's result; nil comes with an error.
abbrev pub client_from : Except ConnectError ResilientClient → Option ResilientClient
client_from (ok c) = some c
client_from (err e) = none

abbrev pub error_from : Except ConnectError ResilientClient → Option ConnectError
error_from (ok c) = none
error_from (err e) = some e

module _ (world : Services) (grow : ℕ → ℕ → ℕ) where
  unfoldable pub init : Options → Sdk → Sdk × Option ConnectError
  unfolding config_of_options configure new_sampler
  init opts s =
      let made =
        new_resilient_client_with_handshake world grow opts.api_key opts.custom_endpoint_url
          (config_of_options opts) in
      (
        record {
          client = client_from made;
          breadcrumbs = some (
              new_breadcrumb_ring
                (if leb_ℤ opts.max_breadcrumbs (pos 0) then pos 100 else opts.max_breadcrumbs));
          hooks = opts.hooks;
          sampler = some (
              new_sampler
                (if float_le opts.sample_rate float_zero then float_one else opts.sample_rate));
          context =
              configure (if str_eq opts.source [] then opts.node else opts.source) opts.environment
                opts.release;
        },
        error_from made,
      )

  abbrev pub no_hooks : SendHooks
  no_hooks = record {
    on_log = none;
    on_error = none;
    on_metric = none;
    on_event = none;
    on_audit = none;
    on_trace = none;
    on_telemetry = none;
  }

  unfoldable pub init_simple : Str → Str → Sdk → Sdk × Option ConnectError
  unfolding init
  init_simple api_key node s =
      init
        (record {
          api_key = api_key;
          node = node;
          source = node;
          environment = [];
          release = [];
          custom_endpoint_url = [];
          queue_size = pos 0;
          flush_interval = pos 0;
          batch_size = pos 0;
          worker_count = pos 0;
          http_timeout = pos 0;
          failsafe = true;
          enable_compression = true;
          max_breadcrumbs = pos 0;
          sample_rate = 0;
          before_send = none;
          hooks = no_hooks;
        })
        s

  -- The callbacks stay as an earlier call left them.
  unfoldable pub init_with_config : Str → Str → Str → ClientConfig → Sdk → Sdk × Option ConnectError
  unfolding configure new_sampler
  init_with_config api_key custom_endpoint_url environment config s =
      let made =
        new_resilient_client_with_handshake world grow api_key custom_endpoint_url config in
      (
        record s {
          client = client_from made;
          breadcrumbs = some (new_breadcrumb_ring (pos 100));
          sampler = some (new_sampler float_one);
          context = configure config.node environment [];
        },
        error_from made,
      )

  -- A number of seconds that is positive, as a duration.
  abbrev pub seconds_option : ℤ → ℤ → ℤ
  seconds_option n default = if ltb_ℤ (pos 0) n then seconds_duration n else default

  -- What `NewResilientClientFromEnvWithHandshake` makes of the environment.
  unfoldable pub config_of_env : Str → Config → ClientConfig
  unfolding default_resilient_client_config
  config_of_env node env =
      let cfg = default_resilient_client_config in
      record {
        node = node;
        queue_size = positive_option env.queue_size cfg.queue_size;
        flush_interval = seconds_option env.flush_interval cfg.flush_interval;
        batch_size = positive_option env.batch_size cfg.batch_size;
        http_timeout = seconds_option env.http_timeout cfg.http_timeout;
        worker_count = positive_option env.worker_count cfg.worker_count;
        failsafe_mode = env.failsafe_mode;
        enable_compression = env.enable_compression;
        hook = none;
      }

  pub data EnvError : Type 0 where
    bad_config : ConfigError → EnvError
    no_client : ConnectError → EnvError

  unfoldable pub new_resilient_client_from_env :
      Strconv → (Str → Str) → Str → Except EnvError ResilientClient
  unfolding load_config_from_env config_of_env
  new_resilient_client_from_env conv getenv node = loaded (load_config_from_env conv getenv)
    where
      connected : Except ConnectError ResilientClient → Except EnvError ResilientClient
      connected (ok c) = ok c
      connected (err e) = err (no_client e)

      loaded : Except ConfigError Config → Except EnvError ResilientClient
      loaded (err e) = err (bad_config e)
      loaded (ok env) =
          connected
            (new_resilient_client_with_handshake world grow env.api_key [] (config_of_env node env))

  -- Neither the context of the payloads nor the callbacks change.
  unfoldable pub init_from_env : Strconv → (Str → Str) → Str → Sdk → Sdk × Option EnvError
  unfolding new_resilient_client_from_env new_sampler
  init_from_env conv getenv node s =
      result (new_resilient_client_from_env conv getenv node) (record s {
        breadcrumbs = some (new_breadcrumb_ring (pos 100));
        sampler = some (new_sampler float_one);
      })
    where
      result : Except EnvError ResilientClient → Sdk → Sdk × Option EnvError
      result (ok c) s = (record s { client = some c }, none)
      result (err e) s = (record s { client = none }, some e)
