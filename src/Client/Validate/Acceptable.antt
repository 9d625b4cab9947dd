-- ===== src/Client/Validate/Acceptable.antt =====
-- The entries that pass validation, described without the code.
use logflux_go_sdk.Prelude.{
  ◌+◌, ◌≤◌, ◌<◌, ◌≡◌, refl, ◌↔◌, ◌⊎◌, ℤ, pos, ◌≤ℤ◌, eqb_ℤ, Bool, true, false, List, [], ◌∷◌, Option,
  none, some, arith, if◌then◌else◌, ◌==◌, Str, str_eq_iff, to_lower, length, All, ◌≢◌,
}
use logflux_go_sdk.Models.{Time, Labels, LogEntry}
use logflux_go_sdk.Client.Validate.{
  EntryError, Clock, minute, max_message_length, and_then, fail_if, validate_timestamp,
  validate_log_level, validate_entry_type, disallowed, found, validate_label, validate_each,
  validate_labels, validate_entry,
}

-- A key of 1 to 64 bytes that is none of the reserved words in any case, and a value of at most 256.
pub record GoodLabel (label : Str × Str) : Type 0 where
  pub key_given : 0 < length label.0
  pub key_short : length label.0 ≤ 64
  pub value_short : length label.1 ≤ 256
  pub unreserved : All (λ word. to_lower label.0 ≢ word) disallowed

abbrev pub GoodLabels : Labels → Type 0
GoodLabels none = Unit {0}
GoodLabels (some labels) = (length labels ≤ 20) × All GoodLabel labels

pub record IsAcceptable (clock : Clock) (entry : LogEntry) : Type 0 where
  pub message_given : 0 < length entry.message
  pub message_short : length entry.message ≤ max_message_length
  pub timely :
      (entry.timestamp ≡ 0)
      ⊎ ((entry.timestamp ≤ clock.now + minute) × (clock.year_ago ≤ entry.timestamp))
  pub level_known : (pos 0 ≤ℤ entry.level) × (entry.level ≤ℤ pos 8)
  pub entry_type_known : (pos 0 ≤ℤ entry.entry_type) × (entry.entry_type ≤ℤ pos 7)
  pub labels_good : GoodLabels entry.labels

not-found : (k : Str) (ws : List Str) → found k ws ≡ false → All (λ word. k ≢ word) ws
unfolding found
not-found k [] h = tt
not-found k (w ∷ ws) h = (λ e. ground (arith, str_eq_iff k w), not-found k ws (ground arith))

found_none : (k : Str) (ws : List Str) → All (λ word. k ≢ word) ws → found k ws ≡ false
unfolding found
found_none k [] h = refl
found_none k (w ∷ ws) h = ground (arith, h.0, str_eq_iff k w, found_none k ws h.1)

label_good : (k v : Str) → validate_label k v ≡ none → GoodLabel (k, v)
unfolding validate_label
label_good k v h = record {
  key_given = ground arith;
  key_short = ground arith;
  value_short = ground arith;
  unreserved = not-found (to_lower k) disallowed (ground arith);
}

good_label : (k v : Str) → GoodLabel (k, v) → validate_label k v ≡ none
unfolding validate_label
good_label k v g = ground (arith, found_none (to_lower k) disallowed g.unreserved)

each_good : (ls : List (Str × Str)) → validate_each ls ≡ none → All GoodLabel ls
unfolding validate_each
each_good [] h = tt
each_good ((k, v) ∷ ls) h = (label_good k v (ground arith), each_good ls (ground arith))

good_each : (ls : List (Str × Str)) → All GoodLabel ls → validate_each ls ≡ none
unfolding validate_each
good_each [] g = refl
good_each ((k, v) ∷ ls) g = ground (arith, good_label k v g.0, good_each ls g.1)

labels_pass : (ls : Labels) → (validate_labels ls ≡ none) ↔ GoodLabels ls
unfolding validate_labels
labels_pass none = (λ h. tt, λ g. refl)
labels_pass (some ls) =
    (λ h. (ground arith, each_good ls (ground arith)), λ g. ground (arith, good_each ls g.1))

abbrev Timely : Clock → Time → Type 0
Timely clock ts = (ts ≡ 0) ⊎ ((ts ≤ clock.now + minute) × (clock.year_ago ≤ ts))

timestamp_pass :
    (clock : Clock) (ts : Time)
    → ((if ts == 0 then none else validate_timestamp clock ts) ≡ none) ↔ Timely clock ts
unfolding validate_timestamp
timestamp_pass clock ts = (λ h. ground arith, λ h. ground arith)

level_pass :
    (level : ℤ)
    → ((if eqb_ℤ level (pos 0) then none else validate_log_level level) ≡ none)
      ↔ ((pos 0 ≤ℤ level) × (level ≤ℤ pos 8))
unfolding validate_log_level
level_pass level = (λ h. ground arith, λ h. ground arith)

entry_type_pass :
    (t : ℤ)
    → ((if eqb_ℤ t (pos 0) then none else validate_entry_type t) ≡ none)
      ↔ ((pos 0 ≤ℤ t) × (t ≤ℤ pos 7))
unfolding validate_entry_type
entry_type_pass t = (λ h. ground arith, λ h. ground arith)

and_then-none : (a b : Option EntryError) → (and_then a b ≡ none) ↔ ((a ≡ none) × (b ≡ none))
and_then-none none b = (λ h. (refl, h), λ h. h.1)
and_then-none (some e) b = (λ h. cc, λ h. cc)

fail_if-none : (b : Bool) (e : EntryError) → (fail_if b e ≡ none) ↔ (b ≡ false)
fail_if-none true e = (λ h. cc, λ h. cc)
fail_if-none false e = (λ h. refl, λ h. refl)

-- `validateEntry` returns nil exactly for the acceptable entries.
pub validate_entry_iff :
    (clock : Clock) (entry : LogEntry)
    → (validate_entry clock entry ≡ none) ↔ IsAcceptable clock entry
unfolding validate_entry
validate_entry_iff clock entry = (
  λ h.
      let (a, h1) = (and_then-none _ _).0 h in
      let (b, h2) = (and_then-none _ _).0 h1 in
      let (c, h3) = (and_then-none _ _).0 h2 in
      let (d, h4) = (and_then-none _ _).0 h3 in
      let (e, f) = (and_then-none _ _).0 h4 in
      record {
        message_given = ground arith;
        message_short = ground arith;
        timely = (timestamp_pass clock entry.timestamp).0 c;
        level_known = (level_pass entry.level).0 d;
        entry_type_known = (entry_type_pass entry.entry_type).0 e;
        labels_good = (labels_pass entry.labels).0 f;
      },
  λ g. (and_then-none _ _).1 (
    ground (arith, g.message_given),
    (and_then-none _ _).1 (
      ground (arith, g.message_short),
      (and_then-none _ _).1 (
        (timestamp_pass clock entry.timestamp).1 g.timely,
        (and_then-none _ _).1 (
          (level_pass entry.level).1 g.level_known,
          (and_then-none _ _).1 (
            (entry_type_pass entry.entry_type).1 g.entry_type_known,
            (labels_pass entry.labels).1 g.labels_good,
          ),
        ),
      ),
    ),
  ),
)
