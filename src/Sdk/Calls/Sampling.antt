-- ===== src/Sdk/Calls/Sampling.antt =====
-- logflux.go: what the sampler decides, and for which calls.
use logflux_go_sdk.Prelude.{Bool, true, false, Option, none}
use logflux_go_sdk.Payload.Json.{Payload}
use logflux_go_sdk.Payload.Sampler.{Sampler}
use logflux_go_sdk.Sdk.{Sdk, SdkError}
use logflux_go_sdk.Sdk.Scopes
use logflux_go_sdk.Sdk.Calls.{Call, log_call, capture_call, message_call, metric_call, event_call}

-- The calls that ask the sampler.
abbrev pub is_sampled : Call → Bool
is_sampled (log_call level message attrs) = true
is_sampled (capture_call e attrs) = true
is_sampled (message_call e message attrs) = true
is_sampled (metric_call name value kind attrs) = true
is_sampled (event_call name attrs) = true
is_sampled _ = false

abbrev pub unsampled : Sdk → Sdk
unsampled s = record s { sampler = none }

-- The sampler is put back.
abbrev pub restore : Option Sampler → Sdk × Option SdkError → Sdk × Option SdkError
restore sampler (s, e) = (record s { sampler = sampler }, e)
