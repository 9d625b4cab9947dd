-- ===== src/Payload/Kinds.antt =====
-- pkg/payload/payload.go: the payload types, their constructors and the setters. `ts` is the text of
-- the current time that a constructor formats.
use logflux_go_sdk.Prelude.{
  ◌+◌, ◌-◌, ◌/◌, ◌^◌, min, ℤ, pos, negsuc, List, none, if◌then◌else◌, leb, ◌==◌, Str, codes,
}
use logflux_go_sdk.Models.{Time, Labels}
use logflux_go_sdk.Payload.{Common}
use logflux_go_sdk.Payload.Float.{Float64}

unfoldable pub new_common : Str → Str → Str → ℤ → Common
new_common ts type_name source level = record {
  version = codes "2.0";
  type_name = type_name;
  source = source;
  level = level;
  ts = ts;
  attributes = none;
  metadata = none;
}

pub record Log : Type 0 where
  pub common : Common
  pub message : Str
  pub logger : Str

unfoldable pub new_log : Str → Str → Str → ℤ → Log
unfolding new_common
new_log ts source message level = record {
  common = new_common ts (codes "log") source level;
  message = message;
  logger = codes "";
}

pub record Metric : Type 0 where
  pub common : Common
  pub name : Str
  pub amount : Float64
  pub unit : Str
  pub kind : Str

unfoldable pub new_counter : Str → Str → Str → Float64 → Metric
unfolding new_common
new_counter ts source name value = record {
  common = new_common ts (codes "metric") source (pos 7);
  name = name;
  amount = value;
  unit = codes "";
  kind = codes "counter";
}

unfoldable pub new_gauge : Str → Str → Str → Float64 → Str → Metric
unfolding new_common
new_gauge ts source name value unit = record {
  common = new_common ts (codes "metric") source (pos 7);
  name = name;
  amount = value;
  unit = unit;
  kind = codes "gauge";
}

unfoldable pub new_distribution : Str → Str → Str → Float64 → Str → Metric
unfolding new_common
new_distribution ts source name value unit = record {
  common = new_common ts (codes "metric") source (pos 7);
  name = name;
  amount = value;
  unit = unit;
  kind = codes "distribution";
}

pub record Trace : Type 0 where
  pub common : Common
  pub trace_id : Str
  pub span_id : Str
  pub parent_span_id : Str
  pub operation : Str
  pub name : Str
  pub start_time : Str
  pub end_time : Str
  pub duration_ms : ℤ
  pub status : Str

-- `end.Sub(start)`, which stays within int64.
unfoldable pub sub_time : Time → Time → ℤ
sub_time end start =
    if leb start end
    then pos (min (end - start) (2 ^ 63 - 1))
    else negsuc (min (start - end) (2 ^ 63) - 1)

-- `Milliseconds`, which rounds towards 0.
unfoldable pub milliseconds : ℤ → ℤ
milliseconds (pos n) = pos (n / 1_000_000)
milliseconds (negsuc n) =
    let whole = (n + 1) / 1_000_000 in if whole == 0 then pos 0 else negsuc (whole - 1)

-- `format` is the RFC 3339 text of a time in UTC.
unfoldable pub new_trace : (Time → Str) → Str → Str → Str → Str → Str → Str → Time → Time → Trace
unfolding new_common sub_time milliseconds
new_trace format ts source trace_id span_id operation name start end = record {
  common = new_common ts (codes "trace") source (pos 7);
  trace_id = trace_id;
  span_id = span_id;
  parent_span_id = codes "";
  operation = operation;
  name = name;
  start_time = format start;
  end_time = format end;
  duration_ms = milliseconds (sub_time end start);
  status = codes "ok";
}

pub record Event : Type 0 where
  pub common : Common
  pub event_name : Str

unfoldable pub new_event : Str → Str → Str → Event
unfolding new_common
new_event ts source event = record {
  common = new_common ts (codes "event") source (pos 7);
  event_name = event;
}

pub record Audit : Type 0 where
  pub common : Common
  pub action : Str
  pub actor : Str
  pub actor_type : Str
  pub resource : Str
  pub resource_id : Str
  pub outcome : Str

unfoldable pub new_audit : Str → Str → Str → Str → Str → Str → Audit
unfolding new_common
new_audit ts source action actor resource resource_id = record {
  common = new_common ts (codes "audit") source (pos 6);
  action = action;
  actor = actor;
  actor_type = codes "";
  resource = resource;
  resource_id = resource_id;
  outcome = codes "success";
}

pub record Reading : Type 0 where
  pub name : Str
  pub amount : Float64
  pub unit : Str

pub record Telemetry : Type 0 where
  pub common : Common
  pub device_id : Str
  pub readings : List Reading

unfoldable pub new_telemetry : Str → Str → Str → List Reading → Telemetry
unfolding new_common
new_telemetry ts source device_id readings = record {
  common = new_common ts (codes "telemetry") source (pos 7);
  device_id = device_id;
  readings = readings;
}

unfoldable pub set_attributes : Common → Labels → Common
set_attributes c attrs = record c { attributes = attrs }

unfoldable pub set_meta : Common → Labels → Common
set_meta c meta = record c { metadata = meta }

unfoldable pub set_level : Common → ℤ → Common
set_level c level = record c { level = level }

unfoldable pub set_source : Common → Str → Common
set_source c source = record c { source = source }

unfoldable pub set_timestamp : (Time → Str) → Common → Time → Common
set_timestamp format c time = record c { ts = format time }

unfoldable pub get_attributes : Common → Labels
get_attributes c = c.attributes
