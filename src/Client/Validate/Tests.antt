-- ===== src/Client/Validate/Tests.antt =====
-- Tests of the validation in pkg/client/client.go, and its theorem at a concrete input.
use logflux_go_sdk.Prelude.{◌≡◌, refl, ◌↔◌, pos, true, [], ◌∷◌, none, some, codes, to_lower, str_eq}
use logflux_go_sdk.Models.{LogEntry, Labels}
use logflux_go_sdk.Client.Validate.{
  validate_each, validate_label, Clock, validate_entry, validate_labels, validate_log_level,
  message_empty, label_disallowed, level_range, found, disallowed,
}
use logflux_go_sdk.Client.Validate.Acceptable.{IsAcceptable, validate_entry_iff}

abbrev clock : Clock
clock = record { now = 1000; year_ago = 10 }

abbrev labelled : Labels → LogEntry
labelled labels = record {
  message = codes "started";
  timestamp = 900;
  level = pos 7;
  entry_type = pos 1;
  payload_type = pos 0;
  node = codes "host";
  labels = labels;
  search_tokens = [];
}

reserved_label :
    validate_labels (some ((codes "Node", codes "a") ∷ [])) ≡ some (label_disallowed (codes "Node"))
unfolding validate_labels found to_lower str_eq validate_each validate_label
reserved_label = refl

-- `Key_uuid` with the Kelvin sign, whose lower case is a k.
kelvin_label : found (to_lower (226 ∷ 132 ∷ 170 ∷ codes "EY_UUID")) disallowed ≡ true
unfolding found to_lower str_eq
kelvin_label = refl

level_9 : validate_log_level (pos 9) ≡ some level_range
unfolding validate_log_level
level_9 = refl

empty_message : validate_entry clock (record (labelled none) { message = [] }) ≡ some message_empty
unfolding validate_entry
empty_message = refl

validate_entry_iff_example :
    (validate_entry clock (labelled (some ((codes "team", codes "a") ∷ []))) ≡ none)
    ↔ IsAcceptable clock (labelled (some ((codes "team", codes "a") ∷ [])))
validate_entry_iff_example =
    validate_entry_iff clock (labelled (some ((codes "team", codes "a") ∷ [])))
