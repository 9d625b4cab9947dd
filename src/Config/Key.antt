-- ===== src/Config/Key.antt =====
-- pkg/config/config.go and pkg/discovery/discovery.go: the API keys that are accepted, and the region
-- that discovery reads from one.
use logflux_go_sdk.Prelude.{
  ◌≡◌, refl, sym, ap, ◌∙◌, subst, ◌↔◌, ◌⊎◌, inl, inr, ℕ, suc, ◌<◌, Bool, true, false, not,
  Bool-cases, [], ◌∷◌, ◌++◌, Option, none, some, if◌then◌else◌, leb, ◌==◌, ==_iff, Str, codes,
  str_eq, str_eq→eq, has_prefix, prefix_split, length, arith,
}
use logflux_go_sdk.Tracing.{cut_dash, split_n, more_parts}
use logflux_go_sdk.Config.{KeyError, empty_body, is_region, validate_parts, validate_api_key}
use logflux_go_sdk.Discovery.{region_among, extract_region_from_key}

-- A key of the format `<region>-lf_<body>`.
pub record HasFormat (key region body : Str) : Type 0 where
  pub known : is_region region ≡ true
  pub split : key ≡ region ++ (codes "-lf_" ++ body)
  pub not_empty : 0 < length body

abbrev joined : Str → Option Str → Str
joined before none = before
joined before (some after) = before ++ 45 ∷ after

joined-cut_dash : (s : Str) → s ≡ joined (cut_dash s).0 (cut_dash s).1
unfolding cut_dash
joined-cut_dash [] = refl
joined-cut_dash (c ∷ cs) = elim (Bool-cases (c == 45)) [
  | inl dash ↦ simp dash (ap (λ x. x ∷ cs) ((==_iff c 45).0 dash))
  | inr other ↦
      simp other (ap (◌∷◌ c) (joined-cut_dash cs) ∙ moved c (cut_dash cs).0 (cut_dash cs).1)
]
  where
    moved :
        (c : ℕ) (before : Str) (after : Option Str)
        → c ∷ joined before after ≡ joined (c ∷ before) after
    moved c before none = refl
    moved c before (some after) = refl

-- The five regions.
pub region-cases :
    (region : Str)
    → is_region region ≡ true
    → (region ≡ codes "eu")
      ⊎ ((region ≡ codes "us")
          ⊎ ((region ≡ codes "ca") ⊎ ((region ≡ codes "au") ⊎ (region ≡ codes "ap"))))
unfolding is_region
region-cases region h = ground (
  arith,
  str_eq→eq region (codes "eu"),
  str_eq→eq region (codes "us"),
  str_eq→eq region (codes "ca"),
  str_eq→eq region (codes "au"),
  str_eq→eq region (codes "ap"),
)

-- What a check of the two parts says that is passed.
guards :
    (a b c : Bool) (x y z : KeyError)
    → (if not a then some x else if not b then some y else if c then some z else none) ≡ none
    → (a ≡ true) × (b ≡ true) × (c ≡ false)
guards false b c x y z h = cc
guards true false c x y z h = cc
guards true true true x y z h = cc
guards true true false x y z h = (refl, refl, refl)

passed :
    (region rest : Str)
    → validate_parts (region ∷ rest ∷ []) ≡ none
    → (is_region region ≡ true)
      × (has_prefix rest (codes "lf_") ≡ true)
      × (leb (length rest) 3 ≡ false)
unfolding validate_parts
passed region rest h =
    guards (is_region region) (has_prefix rest (codes "lf_")) (leb (length rest) 3) _ _ _ h

accepted :
    (before : Str) (after : Option Str)
    → validate_parts (before ∷ more_parts (split_n 0) after) ≡ none
    → (body : Str) × HasFormat (joined before after) before body
unfolding split_n validate_parts
accepted before none h = cc
accepted before (some after) h =
    let (known, lf, long) = passed before after h in
    let (body, same) = prefix_split after (codes "lf_") lf in
    (
      body,
      record {
        known = known;
        split = ap (λ x. before ++ 45 ∷ x) same;
        not_empty = long_body body (ap (λ x. leb (length x) 3) (sym same) ∙ long);
      },
    )
  where
    long_body : (body : Str) → leb (length (codes "lf_" ++ body)) 3 ≡ false → 0 < length body
    long_body body h = ground arith

format_passes :
    (region body : Str)
    → is_region region ≡ true
    → 0 < length body
    → (validate_api_key (region ++ (codes "-lf_" ++ body)) ≡ none)
      × (extract_region_from_key (region ++ (codes "-lf_" ++ body)) ≡ (region, codes "lf_" ++ body))
unfolding validate_api_key validate_parts split_n cut_dash is_region extract_region_from_key
    region_among has_prefix str_eq
format_passes region body known long =
    let some_body = enough (length body) long in
    elim (region-cases region known) [
      | inl eu ↦ rw eu (some_body, refl)
      | inr (inl us) ↦ rw us (some_body, refl)
      | inr (inr (inl ca)) ↦ rw ca (some_body, refl)
      | inr (inr (inr (inl au))) ↦ rw au (some_body, refl)
      | inr (inr (inr (inr ap))) ↦ rw ap (some_body, refl)
    ]
  where
    enough : (n : ℕ) → 0 < n → (if leb (suc (suc (suc n))) 3 then some empty_body else none) ≡ none
    enough n h = ground arith

-- `ValidateAPIKey` accepts exactly the keys of the format `<region>-lf_<body>` with one of the five
-- regions and a body that is not empty.
validate_api_key_iff :
    (key : Str)
    → (validate_api_key key ≡ none) ↔ ((region : Str) × (body : Str) × HasFormat key region body)
unfolding validate_api_key split_n
validate_api_key_iff key = (
  λ h.
      let (body, format) = accepted (cut_dash key).0 (cut_dash key).1 h in
      (
        (cut_dash key).0,
        body,
        subst (λ k. HasFormat k (cut_dash key).0 body) (sym (joined-cut_dash key)) format,
      ),
  λ (region, body, format).
      ap validate_api_key format.split
      ∙ (format_passes region body format.known format.not_empty).0,
)

-- Of a key that `ValidateAPIKey` accepts, `ExtractRegionFromKey` gives the region and the rest: so
-- discovery asks the static service of the region first.
pub extract_region-accepted :
    (key : Str)
    → validate_api_key key ≡ none
    → let (region, rest) = extract_region_from_key key in
      (is_region region ≡ true)
      × (key ≡ region ++ 45 ∷ rest)
      × (has_prefix rest (codes "lf_") ≡ true)
unfolding has_prefix
extract_region-accepted key h =
    let (region, body, format) = (validate_api_key_iff key).0 h in
    let found =
      ap extract_region_from_key format.split
      ∙ (format_passes region body format.known format.not_empty).1 in
    (
      ap (λ x. is_region x.0) found ∙ format.known,
      format.split ∙ sym (ap (λ x. x.0 ++ 45 ∷ x.1) found),
      ap (λ x. has_prefix x.1 (codes "lf_")) found,
    )
