-- ===== src/Config.antt =====
-- pkg/config/config.go: the check of an API key, and the configuration from the environment.
pub mod Key
mod Tests
use logflux_go_sdk.Prelude.{
  ℤ, pos, Bool, true, false, not, ◌||◌, List, [], ◌∷◌, Option, none, some, if◌then◌else◌, leb, Str,
  codes, str_eq, has_prefix, length, get_or_else, Except, ok, err,
}
use logflux_go_sdk.Tracing.{split_n}
use logflux_go_sdk.Payload.Float.{Float64}

pub data KeyError : Type 0 where
  not_two_parts : KeyError
  unknown_region : Str → KeyError
  no_lf_prefix : KeyError
  empty_body : KeyError

-- The keys of the map of regions.
unfoldable pub is_region : Str → Bool
is_region region =
    str_eq region (codes "eu")
    || str_eq region (codes "us")
    || str_eq region (codes "ca")
    || str_eq region (codes "au")
    || str_eq region (codes "ap")

unfoldable pub validate_parts : List Str → Option KeyError
unfolding is_region
validate_parts (region ∷ rest ∷ []) =
    if not (is_region region)
    then some (unknown_region region)
    else if not (has_prefix rest (codes "lf_"))
    then some no_lf_prefix
    else if leb (length rest) 3
    then some empty_body
    else none
validate_parts parts = some not_two_parts

-- nil is none. The counter of `split_n` is one less than Go's.
unfoldable pub validate_api_key : Str → Option KeyError
unfolding validate_parts split_n
validate_api_key key = validate_parts (split_n 1 key)

-- Seconds and milliseconds are plain numbers here.
pub record Config : Type 0 where
  pub api_key : Str
  pub environment : Str
  pub node : Str
  pub log_group : Str
  pub queue_size : ℤ
  pub flush_interval : ℤ
  pub batch_size : ℤ
  pub max_retries : ℤ
  pub initial_delay : ℤ
  pub max_delay : ℤ
  pub backoff_factor : Float64
  pub http_timeout : ℤ
  pub failsafe_mode : Bool
  pub worker_count : ℤ
  pub enable_compression : Bool
  pub debug : Bool

pub data ConfigError : Type 0 where
  key_required : ConfigError
  bad_key : KeyError → ConfigError

-- Go's strconv: none is an error.
pub record Strconv : Type 0 where
  pub atoi : Str → Option ℤ
  pub parse_float : Str → Option Float64
  pub parse_bool : Str → Option Bool

-- A variable that is set and can be read replaces the value.
abbrev pub read_or : {A : Type 0} → (Str → Option A) → Str → A → A
read_or parse v default = if str_eq v [] then default else get_or_else (parse v) default

unfoldable pub checked_config : Config → Option KeyError → Except ConfigError Config
checked_config config none = ok config
checked_config config (some e) = err (bad_key e)

-- What the environment sets. `getenv` is the empty text for a variable that is not set.
unfoldable pub config_from_env : Strconv → (Str → Str) → Config
config_from_env conv getenv = record {
  api_key = getenv (codes "LOGFLUX_API_KEY");
  environment = getenv (codes "LOGFLUX_ENVIRONMENT");
  node = getenv (codes "LOGFLUX_NODE");
  log_group = getenv (codes "LOGFLUX_LOG_GROUP");
  queue_size = read_or conv.atoi (getenv (codes "LOGFLUX_QUEUE_SIZE")) (pos 0);
  flush_interval = read_or conv.atoi (getenv (codes "LOGFLUX_FLUSH_INTERVAL")) (pos 0);
  batch_size = read_or conv.atoi (getenv (codes "LOGFLUX_BATCH_SIZE")) (pos 0);
  max_retries = read_or conv.atoi (getenv (codes "LOGFLUX_MAX_RETRIES")) (pos 0);
  initial_delay = read_or conv.atoi (getenv (codes "LOGFLUX_INITIAL_DELAY")) (pos 0);
  max_delay = read_or conv.atoi (getenv (codes "LOGFLUX_MAX_DELAY")) (pos 0);
  backoff_factor = read_or conv.parse_float (getenv (codes "LOGFLUX_BACKOFF_FACTOR")) 0;
  http_timeout = read_or conv.atoi (getenv (codes "LOGFLUX_HTTP_TIMEOUT")) (pos 0);
  failsafe_mode = read_or conv.parse_bool (getenv (codes "LOGFLUX_FAILSAFE_MODE")) false;
  worker_count = read_or conv.atoi (getenv (codes "LOGFLUX_WORKER_COUNT")) (pos 0);
  enable_compression = read_or conv.parse_bool (getenv (codes "LOGFLUX_ENABLE_COMPRESSION")) true;
  debug = read_or conv.parse_bool (getenv (codes "LOGFLUX_DEBUG")) false;
}

unfoldable pub load_config_from_env : Strconv → (Str → Str) → Except ConfigError Config
unfolding config_from_env checked_config validate_api_key
load_config_from_env conv getenv =
    let config = config_from_env conv getenv in
    if str_eq config.api_key []
    then err key_required
    else checked_config config (validate_api_key config.api_key)
