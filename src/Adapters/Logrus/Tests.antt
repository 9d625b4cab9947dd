-- ===== src/Adapters/Logrus/Tests.antt =====
-- pkg/adapters/logrus.go on concrete calls.
use logflux_go_sdk.Prelude.{◌≡◌, refl, pos, [], ◌∷◌, none, some, codes, str_eq, join, itoa}
use logflux_go_sdk.Adapters.{exits, panics, signed_value, bytes_value, Texts}
use logflux_go_sdk.Adapters.Logrus.{
  new_logrus_logger, with_field, entry_with_error, entry_with_fields, entry_log_at, set_level,
  log_at, call_at, entry_call_at, logrus_info_level, logrus_debug_level, logrus_fatal_level,
  logrus_panic_level,
}

abbrev plain_texts : Texts
plain_texts = record {
  float_text = λ x. codes "float";
  time_text = λ x. codes "time";
  time_default_text = λ x. codes "time by default";
  duration_text = λ x. codes "duration";
}

entry_text :
    entry_log_at plain_texts
      (entry_with_error
        (entry_with_fields
          (with_field new_logrus_logger 900 (codes "n") (signed_value (pos 1)))
          ((codes "n", signed_value (pos 2)) ∷ (codes "b", bytes_value (65 ∷ [])) ∷ []))
        none)
      logrus_info_level
      (codes "up")
    ≡ some (record { text = codes "up n=2 b=[65] error=<nil>"; level = pos 7 }, 900)
unfolding entry_log_at entry_with_error entry_with_fields with_field new_logrus_logger str_eq join
    itoa
entry_text = refl

debug_is_below : log_at new_logrus_logger logrus_debug_level (codes "up") ≡ none
unfolding log_at new_logrus_logger
debug_is_below = refl

-- At `LogrusPanicLevel` a fatal message is not sent, and the process still ends.
fatal_exits :
    call_at (set_level new_logrus_logger logrus_panic_level) logrus_fatal_level (codes "no")
    ≡ (none, exits 1)
unfolding call_at set_level
fatal_exits = refl

entry_panics :
    entry_call_at plain_texts
      (with_field new_logrus_logger 900 (codes "n") (signed_value (pos 1)))
      logrus_panic_level
      (codes "no")
    ≡ (some (record { text = codes "no n=1"; level = pos 3 }, 900), panics (codes "no n=1"))
unfolding entry_call_at with_field new_logrus_logger str_eq join itoa
entry_panics = refl
