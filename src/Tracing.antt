-- ===== src/Tracing.antt =====
-- tracing.go and span.go: trace headers, and the spans that they join.
pub mod Header
mod Tests
use logflux_go_sdk.Prelude.{
  ℕ, zero, suc, ◌+◌, ◌/◌, ◌%◌, Bool, true, false, not, ◌&&◌, ◌||◌, List, [], ◌∷◌, ◌++◌, Option,
  none, some, if◌then◌else◌, ◌==◌, leb, ltb, Str, codes, str_eq, length,
}
use logflux_go_sdk.Models.{Time, Labels}

pub record TraceContext : Type 0 where
  pub trace_id : Str
  pub span_id : Str
  pub sampled : Bool

-- The text before the first `-`, and what follows it.
unfoldable pub cut_dash : Str → Str × Option Str
cut_dash [] = ([], none)
cut_dash (c ∷ cs) =
    let (before, after) = cut_dash cs in if c == 45 then ([], some cs) else (c ∷ before, after)

abbrev pub more_parts : (Str → List Str) → Option Str → List Str
more_parts split none = []
more_parts split (some text) = split text

-- `strings.SplitN(header, "-", n)` for `n` of 1 or more.
unfoldable pub split_n : ℕ → Str → List Str
unfolding cut_dash
split_n zero text = text ∷ []
split_n (suc n) text = let (before, after) = cut_dash text in before ∷ more_parts (split_n n) after

unfoldable pub is_hex_digit : ℕ → Bool
is_hex_digit c = (leb 48 c && leb c 57) || (leb 97 c && leb c 102) || (leb 65 c && leb c 70)

unfoldable pub all_hex : Str → Bool
unfolding is_hex_digit
all_hex [] = true
all_hex (c ∷ cs) = is_hex_digit c && all_hex cs

-- `hex.DecodeString` gives no error.
unfoldable pub decodes : Str → Bool
unfolding all_hex
decodes text = length text % 2 == 0 && all_hex text

abbrev pub says_no : List Str → Bool
says_no (flag ∷ []) = str_eq flag (codes "0")
says_no _ = false

unfoldable pub parse_parts : List Str → Option TraceContext
parse_parts (trace_id ∷ span_id ∷ rest) =
    if not (length trace_id == 32) || not (length span_id == 16)
    then none
    else if not (decodes trace_id) || not (decodes span_id)
    then none
    else some (record { trace_id = trace_id; span_id = span_id; sampled = not (says_no rest) })
parse_parts _ = none

-- The counter of `split_n` is one less than Go's.
unfoldable pub parse_trace_header : Str → Option TraceContext
unfolding parse_parts split_n
parse_trace_header header = parse_parts (split_n 2 header)

abbrev pub header_text : Str → Str → Str → Str
header_text trace_id span_id flag = trace_id ++ 45 ∷ (span_id ++ 45 ∷ flag)

unfoldable pub format_trace_header : Option TraceContext → Str
format_trace_header none = []
format_trace_header (some tc) =
    header_text tc.trace_id tc.span_id (if not tc.sampled then codes "0" else codes "1")

pub record Span : Type 0 where
  pub trace_id : Str
  pub span_id : Str
  pub parent_span_id : Str
  pub operation : Str
  pub name : Str
  pub start_time : Time
  pub status : Str
  pub attributes : Labels
  pub ended : Bool

-- The digit of a number below 16, as `hex.EncodeToString` writes it.
unfoldable pub hex_digit : ℕ → ℕ
hex_digit n = if ltb n 10 then 48 + n else 87 + n

unfoldable pub hex_text : List ℕ → Str
unfolding hex_digit
hex_text [] = []
hex_text (b ∷ bs) = hex_digit (b / 16) ∷ hex_digit (b % 16) ∷ hex_text bs

-- A span that starts now; `fresh_id` is what the random source gives, 8 bytes.
unfoldable pub new_span : Str → List ℕ → Str → Str → Str → Time → Span
unfolding hex_text
new_span trace_id fresh_id parent operation name now = record {
  trace_id = trace_id;
  span_id = hex_text fresh_id;
  parent_span_id = parent;
  operation = operation;
  name = name;
  start_time = now;
  status = codes "ok";
  attributes = none;
  ended = false;
}

unfoldable pub start_span : List ℕ → List ℕ → Str → Str → Time → Span
unfolding new_span
start_span trace_bytes span_bytes operation name now =
    new_span (hex_text trace_bytes) span_bytes [] operation name now

unfoldable pub start_span_with_trace_id : Str → List ℕ → Str → Str → Time → Span
unfolding new_span
start_span_with_trace_id trace_id span_bytes operation name now =
    new_span trace_id span_bytes [] operation name now

unfoldable pub start_child : Span → List ℕ → Str → Str → Time → Span
unfolding new_span
start_child s span_bytes operation name now =
    new_span s.trace_id span_bytes s.span_id operation name now

-- The header that `InjectTraceContext` sets.
unfoldable pub inject_trace_context : Span → Str
inject_trace_context s = header_text s.trace_id s.span_id (codes "1")

-- A missing header reads as the empty text.
unfoldable pub extract_trace_context : Str → Option TraceContext
unfolding parse_trace_header
extract_trace_context header = if length header == 0 then none else parse_trace_header header

unfoldable pub continue_with : Option TraceContext → List ℕ → List ℕ → Str → Str → Time → Span
unfolding start_span new_span
continue_with none trace_bytes span_bytes operation name now =
    start_span trace_bytes span_bytes operation name now
continue_with (some tc) trace_bytes span_bytes operation name now =
    new_span tc.trace_id span_bytes tc.span_id operation name now

unfoldable pub continue_from_request : Str → List ℕ → List ℕ → Str → Str → Time → Span
unfolding continue_with extract_trace_context
continue_from_request header trace_bytes span_bytes operation name now =
    continue_with (extract_trace_context header) trace_bytes span_bytes operation name now
