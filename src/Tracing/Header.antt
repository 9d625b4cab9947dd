-- ===== src/Tracing/Header.antt =====
-- tracing.go: what a trace header carries from one process to the next.
use logflux_go_sdk.Prelude.{
  ℕ, suc, ◌*◌, ◌/◌, ◌%◌, ◌<◌, ◌≡◌, refl, subst, ap, ◌∙◌, Bool, true, false, not, ◌||◌, List, [],
  ◌∷◌, ◌++◌, Option, some, arith, if◌then◌else◌, Bool-cases, inl, inr, ◌==◌, Str, codes, str_eq,
  length, length-append, All,
}
use logflux_go_sdk.Models.{Time}
use logflux_go_sdk.Tracing.{
  TraceContext, cut_dash, split_n, is_hex_digit, all_hex, decodes, more_parts, start_child,
  parse_parts, parse_trace_header, header_text, format_trace_header, Span, hex_digit, hex_text,
  new_span, start_span, inject_trace_context, extract_trace_context, continue_with,
  continue_from_request,
}

-- Ids of 16 and 8 bytes in hexadecimal.
pub record IsWire (trace_id span_id : Str) : Type 0 where
  pub trace_length : length trace_id ≡ 32
  pub span_length : length span_id ≡ 16
  pub trace_hex : all_hex trace_id ≡ true
  pub span_hex : all_hex span_id ≡ true

cut_dash-append : (a s : Str) → all_hex a ≡ true → cut_dash (a ++ 45 ∷ s) ≡ (a, some s)
unfolding cut_dash all_hex is_hex_digit
cut_dash-append [] s h = refl
cut_dash-append (c ∷ cs) s h = ground (arith, cut_dash-append cs s (ground arith))

split_n-cut :
    (n : ℕ) (text a s : Str) → cut_dash text ≡ (a, some s) → split_n (suc n) text ≡ a ∷ split_n n s
unfolding split_n
split_n-cut n text a s h = ap (λ (x : Str × Option Str). x.0 ∷ more_parts (split_n n) x.1) h

split_n-header :
    (t s f : Str)
    → all_hex t ≡ true
    → all_hex s ≡ true
    → split_n 2 (header_text t s f) ≡ t ∷ s ∷ f ∷ []
unfolding split_n
split_n-header t s f h k =
    split_n-cut 1 (header_text t s f) t (s ++ 45 ∷ f) (cut_dash-append t (s ++ 45 ∷ f) h)
    ∙ ap (λ x. t ∷ x) (split_n-cut 0 (s ++ 45 ∷ f) s f (cut_dash-append s f k))

parse-header_text :
    (t s f : Str)
    → IsWire t s
    → parse_trace_header (header_text t s f)
      ≡ some (record { trace_id = t; span_id = s; sampled = not (str_eq f (codes "0")) })
unfolding parse_trace_header parse_parts decodes
parse-header_text t s f w =
    rw
      (
        split_n-header t s f w.trace_hex w.span_hex,
        w.trace_length,
        w.span_length,
        w.trace_hex,
        w.span_hex,
      )
      refl

format_sampled :
    (t s : Str) (b : Bool)
    → IsWire t s
    → parse_trace_header (header_text t s (if not b then codes "0" else codes "1"))
      ≡ some (record { trace_id = t; span_id = s; sampled = b })
unfolding str_eq
format_sampled t s true w = parse-header_text t s (codes "1") w
format_sampled t s false w = parse-header_text t s (codes "0") w

-- A context with ids of 32 and 16 hexadecimal digits comes back from its header as it was.
parse-format :
    (tc : TraceContext)
    → IsWire tc.trace_id tc.span_id
    → parse_trace_header (format_trace_header (some tc)) ≡ some tc
unfolding format_trace_header
parse-format tc w = format_sampled tc.trace_id tc.span_id tc.sampled w

parse_parts-IsWire :
    (parts : List Str) (tc : TraceContext)
    → parse_parts parts ≡ some tc
    → IsWire tc.trace_id tc.span_id
unfolding parse_parts decodes
parse_parts-IsWire [] tc h = cc
parse_parts-IsWire (t ∷ []) tc h = cc
parse_parts-IsWire (t ∷ s ∷ rest) tc h =
    elim (Bool-cases (not (length t == 32) || not (length s == 16))) [
      | inl b ↦ let none_some = rw b at h in cc
      | inr b ↦ elim (Bool-cases (not (decodes t) || not (decodes s))) [
        | inl c ↦ let none_some = rw (b, c) at h in cc
        | inr c ↦
            subst (λ (x : TraceContext). IsWire x.trace_id x.span_id) (same _ (rw (b, c) at h))
              (record {
                trace_length = ground (arith, b);
                span_length = ground (arith, b);
                trace_hex = ground (arith, c);
                span_hex = ground (arith, c);
              })
      ]
    ]
  where
    same : (x : TraceContext) → some x ≡ some tc → x ≡ tc
    same x k = cc

-- Only contexts with ids of 32 and 16 hexadecimal digits are read from a header, and what was read
-- comes back from the header that it is written to.
parse-format-parse :
    (header : Str) (tc : TraceContext)
    → parse_trace_header header ≡ some tc
    → IsWire tc.trace_id tc.span_id × (parse_trace_header (format_trace_header (some tc)) ≡ some tc)
unfolding parse_trace_header
parse-format-parse header tc h =
    let w = parse_parts-IsWire (split_n 2 header) tc h in (w, parse-format tc w)

abbrev pub AreBytes : List ℕ → Type 0
AreBytes = All (λ b. b < 256)

hex_digit-hex : (n : ℕ) → n < 16 → is_hex_digit (hex_digit n) ≡ true
unfolding hex_digit is_hex_digit
hex_digit-hex n h = ground arith

hex_text-hex : (bs : List ℕ) → AreBytes bs → all_hex (hex_text bs) ≡ true
unfolding hex_text all_hex
hex_text-hex [] h = refl
hex_text-hex (b ∷ bs) (h, hs) =
    rw
      (
        hex_digit-hex (b / 16) (omega (arith, h)),
        hex_digit-hex (b % 16) (omega arith),
        hex_text-hex bs hs,
      )
      refl

length-hex_text : (bs : List ℕ) → length (hex_text bs) ≡ 2 * length bs
unfolding hex_text
length-hex_text [] = refl
length-hex_text (b ∷ bs) = omega (arith, length-hex_text bs)

extract-inject :
    (s : Span)
    → IsWire s.trace_id s.span_id
    → extract_trace_context (inject_trace_context s)
      ≡ some (record { trace_id = s.trace_id; span_id = s.span_id; sampled = true })
unfolding extract_trace_context inject_trace_context str_eq
extract-inject s w =
    rw (apart s.trace_id (s.span_id ++ 45 ∷ codes "1"))
      (parse-header_text s.trace_id s.span_id (codes "1") w)
  where
    apart : (t r : Str) → (length (t ++ 45 ∷ r) == 0) ≡ false
    apart t r = grind (arith, length-append t (45 ∷ r))

-- A span that continues the request of a span with ids of 32 and 16 hexadecimal digits is a child of
-- it: in its trace, and with its id for a parent.
pub continue-inject :
    (s : Span) (trace_bytes span_bytes : List ℕ) (operation name : Str) (now : Time)
    → IsWire s.trace_id s.span_id
    → continue_from_request (inject_trace_context s) trace_bytes span_bytes operation name now
      ≡ start_child s span_bytes operation name now
unfolding continue_from_request continue_with start_child
continue-inject s trace_bytes span_bytes operation name now w = rw (extract-inject s w) refl

-- The ids of a span that `StartSpan` made of 16 and 8 random bytes can go over the wire, and so can
-- those of its children.
pub start_span-IsWire :
    (trace_bytes span_bytes child_bytes : List ℕ) (operation name : Str) (now : Time)
    → AreBytes trace_bytes
    → AreBytes span_bytes
    → AreBytes child_bytes
    → length trace_bytes ≡ 16
    → length span_bytes ≡ 8
    → length child_bytes ≡ 8
    → let s = start_span trace_bytes span_bytes operation name now in
      let child = start_child s child_bytes operation name now in
      IsWire s.trace_id s.span_id × IsWire child.trace_id child.span_id
unfolding start_span new_span start_child
start_span-IsWire t s k operation name now a b c l m n =
    (wire t s (a, l) (b, m), wire t k (a, l) (c, n))
  where
    wire :
        (ids ids' : List ℕ)
        → AreBytes ids × (length ids ≡ 16)
        → AreBytes ids' × (length ids' ≡ 8)
        → IsWire (hex_text ids) (hex_text ids')
    wire ids ids' (h, l) (h', l') = record {
      trace_length = omega (arith, length-hex_text ids, l);
      span_length = omega (arith, length-hex_text ids', l');
      trace_hex = hex_text-hex ids h;
      span_hex = hex_text-hex ids' h';
    }
