-- ===== src/Tracing/Tests.antt =====
-- Tests of tracing.go and span.go, and the theorems at concrete inputs.
use logflux_go_sdk.Prelude.{
  ℕ, ◌≡◌, refl, true, false, [], ◌∷◌, ◌++◌, some, none, codes, replicate, Str,
}
use logflux_go_sdk.Tracing.{
  TraceContext, all_hex, parse_trace_header, decodes, Span, start_child, inject_trace_context,
  continue_from_request,
}
use logflux_go_sdk.Tracing.Header.{IsWire, continue-inject}

abbrev zeros : ℕ → Str
zeros n = replicate n 48

abbrev context : TraceContext
context = record { trace_id = zeros 32; span_id = zeros 16; sampled = false }

zeros-IsWire : IsWire (zeros 32) (zeros 16)
unfolding all_hex
zeros-IsWire = record { trace_length = refl; span_length = refl; trace_hex = refl; span_hex = refl }

short_span : parse_trace_header (zeros 32 ++ 45 ∷ zeros 15) ≡ none
unfolding parse_trace_header
short_span = refl

no_flag : parse_trace_header (zeros 32 ++ 45 ∷ zeros 16) ≡ some (record context { sampled = true })
unfolding parse_trace_header decodes all_hex
no_flag = refl

abbrev root : Span
root = record {
  trace_id = zeros 32;
  span_id = zeros 16;
  parent_span_id = [];
  operation = codes "http.client";
  name = codes "GET /";
  start_time = 5;
  status = codes "ok";
  attributes = none;
  ended = false;
}

continue-inject_example :
    continue_from_request (inject_trace_context root) [] (replicate 8 7) (codes "http.server") [] 9
    ≡ start_child root (replicate 8 7) (codes "http.server") [] 9
continue-inject_example =
    continue-inject root [] (replicate 8 7) (codes "http.server") [] 9 zeros-IsWire
