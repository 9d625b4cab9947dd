-- ===== src/Adapters/Zerolog/Tests.antt =====
-- pkg/adapters/zerolog.go on concrete calls.
use logflux_go_sdk.Prelude.{◌≡◌, refl, pos, [], ◌∷◌, List, some, codes, str_eq, join, itoa}
use logflux_go_sdk.Adapters.{Texts}
use logflux_go_sdk.Adapters.Zerolog.{
  Setting, str, int, err, new_zerolog_logger, logger_set, event_at, event_set, msg,
  zerolog_error_level,
}
use logflux_go_sdk.Adapters.Zerolog.Chain.{logger_sets, event_sets}

abbrev plain_texts : Texts
plain_texts = record {
  float_text = λ x. codes "float";
  time_text = λ x. codes "time";
  time_default_text = λ x. codes "time by default";
  duration_text = λ x. codes "duration";
}

abbrev on_logger : List Setting
on_logger = str (codes "app") (codes "a") ∷ str (codes "db") (codes "up") ∷ []

abbrev on_call : List Setting
on_call =
    str (codes "db") (codes "down") ∷ int (codes "n") (pos 3) ∷ err (some (codes "no route")) ∷ []

sent_text :
    msg plain_texts
      (event_sets (event_at (logger_sets new_zerolog_logger on_logger) zerolog_error_level) on_call)
      (codes "lost")
    ≡ some (record { text = codes "lost app=a db=down n=3 error=no route"; level = pos 4 })
unfolding msg event_at event_set logger_set new_zerolog_logger str_eq join itoa
sent_text = refl
