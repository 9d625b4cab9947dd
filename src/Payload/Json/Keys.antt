-- ===== src/Payload/Json/Keys.antt =====
-- pkg/payload/payload.go: the keys of the JSON object of a payload.
use logflux_go_sdk.Prelude.{
  ◌≡◌, refl, Bool, true, false, not, ◌&&◌, Bool-cases, inl, inr, List, [], ◌∷◌, ◌++◌, if◌then◌else◌,
  Str, str_eq, arith, sym, ap, ◌∙◌,
}
use logflux_go_sdk.Payload.Json.{
  Payload, log_payload, error_payload, metric_payload, trace_payload, event_payload, audit_payload,
  telemetry_payload, Row, Value, is_empty_value, present, common_rows, own_rows, json_object,
}

abbrev pub occurs : Str → List Str → Bool
occurs k [] = false
occurs k (j ∷ ks) = if str_eq k j then true else occurs k ks

-- No key stands twice.
abbrev pub distinct : List Str → Bool
distinct [] = true
distinct (k ∷ ks) = not (occurs k ks) && distinct ks

abbrev pub keys : {A : Type 0} → List (Str × A) → List Str
keys [] = []
keys ((k, v) ∷ fields) = k ∷ keys fields

abbrev row_keys : List (Row Value) → List Str
row_keys [] = []
row_keys (row ∷ rows) = row.key ∷ row_keys rows

occurs-present :
    (k : Str) (rows : List (Row Value))
    → occurs k (row_keys rows) ≡ false
    → occurs k (keys (present is_empty_value rows)) ≡ false
unfolding present
occurs-present k [] h = refl
occurs-present k (row ∷ rows) h = elim (Bool-cases (str_eq k row.key)) [
  | inl same ↦
      let impossible = sym h ∙ ap (λ b. if b then true else occurs k (row_keys rows)) same in cc
  | inr other ↦
      let rest =
        occurs-present k rows
          (sym (ap (λ b. if b then true else occurs k (row_keys rows)) other) ∙ h) in
      elim (Bool-cases (row.omitempty && is_empty_value row.value)) [
        | inl left_out ↦ simp left_out rest
        | inr written ↦ simp written (simp other rest)
      ]
]

distinct-present :
    (rows : List (Row Value))
    → distinct (row_keys rows) ≡ true
    → distinct (keys (present is_empty_value rows)) ≡ true
unfolding present
distinct-present [] h = refl
distinct-present (row ∷ rows) h = elim (Bool-cases (row.omitempty && is_empty_value row.value)) [
  | inl left_out ↦ simp left_out (distinct-present rows (ground arith))
  | inr written ↦ simp written (
      ground
        (arith, distinct-present rows (ground arith), occurs-present row.key rows (ground arith)))
]

-- In the JSON object of a payload no key stands twice.
json_object-distinct : (p : Payload) → distinct (keys (json_object p)) ≡ true
unfolding json_object common_rows own_rows str_eq
json_object-distinct (log_payload p) =
    distinct-present (common_rows p.common ++ own_rows (log_payload p)) refl
json_object-distinct (error_payload p) =
    distinct-present (common_rows p.common ++ own_rows (error_payload p)) refl
json_object-distinct (metric_payload p) =
    distinct-present (common_rows p.common ++ own_rows (metric_payload p)) refl
json_object-distinct (trace_payload p) =
    distinct-present (common_rows p.common ++ own_rows (trace_payload p)) refl
json_object-distinct (event_payload p) =
    distinct-present (common_rows p.common ++ own_rows (event_payload p)) refl
json_object-distinct (audit_payload p) =
    distinct-present (common_rows p.common ++ own_rows (audit_payload p)) refl
json_object-distinct (telemetry_payload p) =
    distinct-present (common_rows p.common ++ own_rows (telemetry_payload p)) refl
