-- ===== src/Adapters/Stdlib.antt =====
-- pkg/adapters/stdlib.go: the drop-in for the standard logger. What `fmt.Sprint` and its kin made of the
-- arguments is the text that the operations take.
use logflux_go_sdk.Prelude.{
  ℕ, not, [], ◌∷◌, ◌++◌, Option, none, some, if◌then◌else◌, length, Str, codes, str_eq, has_prefix,
  drop,
}
use logflux_go_sdk.Models.{log_level_critical, log_level_info}
use logflux_go_sdk.Handshake.{trim_space}
use logflux_go_sdk.Adapters.{Sent, Ending, returns, exits, panics}

pub record StdlibLogger : Type 0 where
  pub prefix : Str

abbrev colon : Str
colon = codes ": "

-- The second part of `strings.SplitN(message, ": ", 2)`, where the text contains `": "`.
unfoldable pub after_colon : Str → Option Str
after_colon [] = none
after_colon (c ∷ cs) =
    let rest = after_colon cs in if has_prefix (c ∷ cs) colon then some (drop 2 (c ∷ cs)) else rest

-- The text that `Write` sends for the bytes that it gets.
unfoldable pub written : StdlibLogger → Str → Str
unfolding after_colon trim_space
written l p = with_prefix (cut (after_colon (trim_space p)))
  where
    cut : Option Str → Str
    cut none = trim_space p
    cut (some rest) = rest

    with_prefix : Str → Str
    with_prefix message = if not (str_eq l.prefix []) then l.prefix ++ message else message

-- The call that `Write` makes, and what it returns; the client's answer is an error or none.
unfoldable pub write : (Sent → Option Str) → StdlibLogger → Str → Sent × (ℕ × Option Str)
unfolding written
write client l p = (call, returned (client call))
  where
    call : Sent
    call = record { text = written l p; level = log_level_info }

    returned : Option Str → ℕ × Option Str
    returned none = (length p, none)
    returned (some e) = (0, some e)

abbrev message_with : StdlibLogger → Str → Str
message_with l text = l.prefix ++ text

-- `Print`, `Printf` and `Println`.
unfoldable pub print : StdlibLogger → Str → Sent × Ending
print l text = (record { text = message_with l text; level = log_level_info }, returns)

-- `Fatal`, `Fatalf` and `Fatalln`.
unfoldable pub fatal : StdlibLogger → Str → Sent × Ending
fatal l text = (record { text = message_with l text; level = log_level_critical }, exits 1)

-- `Panic`, `Panicf` and `Panicln`.
unfoldable pub panic : StdlibLogger → Str → Sent × Ending
panic l text = (
  record { text = message_with l text; level = log_level_critical },
  panics (message_with l text),
)

unfoldable pub set_prefix : StdlibLogger → Str → StdlibLogger
set_prefix l prefix = record l { prefix = prefix }

-- `Output` returns what the client says.
unfoldable pub output : (Sent → Option Str) → StdlibLogger → Str → Sent × Option Str
output client l s = (call, client call)
  where
    call : Sent
    call = record { text = message_with l s; level = log_level_info }
