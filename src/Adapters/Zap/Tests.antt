-- ===== src/Adapters/Zap/Tests.antt =====
-- pkg/adapters/zap.go and pkg/adapters/stdlib.go on concrete calls.
use logflux_go_sdk.Prelude.{
  ◌≡◌, refl, pos, true, [], ◌∷◌, none, some, codes, str_eq, join, itoa, has_prefix,
}
use logflux_go_sdk.Handshake.{trim_space}
use logflux_go_sdk.Adapters.{
  panics, exits, bool_value, bytes_value, signed_value, string_value, Texts,
}
use logflux_go_sdk.Adapters.Zap.{
  ZapLogger, new_zap_logger, named, log_at, panic, fatal, sugar_with, zap_info_level,
  zap_debug_level,
}
use logflux_go_sdk.Adapters.Stdlib.{write}

abbrev plain_texts : Texts
plain_texts = record {
  float_text = λ x. codes "float";
  time_text = λ x. codes "time";
  time_default_text = λ x. codes "time by default";
  duration_text = λ x. codes "duration";
}

abbrev sugared : ZapLogger
sugared = sugar_with (named new_zap_logger (codes "db")) (
    string_value (codes "raw")
    ∷ bytes_value (65 ∷ 66 ∷ [])
    ∷ signed_value (pos 1)
    ∷ bool_value true
    ∷ string_value (codes "odd")
    ∷ [])

info_text :
    log_at plain_texts sugared zap_info_level (codes "up") []
    ≡ some (record { text = codes "up logger=db raw=[65 66]"; level = pos 7 })
unfolding log_at sugar_with named new_zap_logger str_eq join itoa
info_text = refl

debug_is_below : log_at plain_texts sugared zap_debug_level (codes "up") [] ≡ none
unfolding log_at sugar_with named new_zap_logger
debug_is_below = refl

panic_text :
    panic plain_texts new_zap_logger (codes "no") []
    ≡ (some (record { text = codes "no"; level = pos 3 }), panics (codes "no"))
unfolding panic new_zap_logger
panic_text = refl

-- A logger whose level lets nothing through still ends the process.
fatal_exits :
    fatal plain_texts (record { level = pos 6; fields = [] }) (codes "no") [] ≡ (none, exits 1)
unfolding fatal
fatal_exits = refl

-- `Write` takes the text before the first `": "` off, whatever it is.
write_cuts :
    write (λ s. none) (record { prefix = codes "[api] " }) (codes " user: a: b\n")
    ≡ (record { text = codes "[api] a: b"; level = pos 7 }, (12, none))
unfolding write str_eq trim_space has_prefix
write_cuts = refl
