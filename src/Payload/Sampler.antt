-- ===== src/Payload/Sampler.antt =====
-- pkg/payload/sampler.go: probabilistic sampling. The number that the random source draws is an
-- argument.
pub mod Rate
use logflux_go_sdk.Prelude.{Bool, true, false, if◌then◌else◌}
use logflux_go_sdk.Payload.Float.{Float64, float_one, float_zero, float_lt, float_le}

pub record Sampler : Type 0 where
  pub rate : Float64

abbrev pub clamp : Float64 → Float64
clamp rate =
    let low = if float_lt rate float_zero then float_zero else rate in
    if float_lt float_one low then float_one else low

unfoldable pub new_sampler : Float64 → Sampler
new_sampler rate = record { rate = clamp rate }

unfoldable pub should_sample : Sampler → Float64 → Bool
should_sample s v =
    if float_le float_one s.rate
    then true
    else if float_le s.rate float_zero
    then false
    else float_lt v s.rate
