-- ===== src/Adapters/Zap/Sugar.antt =====
-- pkg/adapters/zap.go: the arguments of the sugared methods.
use logflux_go_sdk.Prelude.{◌≡◌, refl, ap, List, [], ◌∷◌, ◌++◌}
use logflux_go_sdk.Adapters.{FieldValue, string_value}
use logflux_go_sdk.Adapters.Zap.{ZapField, sugar_fields}

-- Fields as the arguments of a sugared method: each key, then its value.
abbrev pub args_of : List ZapField → List FieldValue
args_of [] = []
args_of (f ∷ fields) = string_value f.key ∷ f.value ∷ args_of fields

-- The sugared methods read back the fields whose keys and values they are given, and the fields of what
-- follows them, an argument without a partner being dropped.
sugar_fields-args_of :
    (fields : List ZapField) (args : List FieldValue)
    → sugar_fields (args_of fields ++ args) ≡ fields ++ sugar_fields args
unfolding sugar_fields
sugar_fields-args_of [] args = refl
sugar_fields-args_of (f ∷ fields) args = ap (λ fs. f ∷ fs) (sugar_fields-args_of fields args)
