-- ===== src/Client/Resilient/Meant.antt =====
-- pkg/client: what a message asks for, and which messages of a batch are to be sent, without the code.
use logflux_go_sdk.Prelude.{
  ◌≡◌, refl, pos, List, [], ◌∷◌, Option, none, some, arith, Str, Except, ok, err, ok_injective,
  subst, ◌⊎◌, ◌≢◌,
}
use logflux_go_sdk.Models.{LogEntry}
use logflux_go_sdk.Client.Validate.{EntryError, Clock, validate_entry}
use logflux_go_sdk.Client.Validate.Acceptable.{IsAcceptable, validate_entry_iff}
use logflux_go_sdk.Client.Resilient.Enqueue.{Message, entry_of}
use logflux_go_sdk.Client.Resilient.Sending.{collected}

-- The entry of a message: its texts, numbers and labels, with the client's node, and type 1 if the message
-- gives none.
pub record IsOf (host : Str) (m : Message) (entry : LogEntry) : Type 0 where
  pub text : entry.message ≡ m.text
  pub timestamp : entry.timestamp ≡ m.timestamp
  pub level : entry.level ≡ m.level
  pub typed :
      ((m.entry_type ≡ pos 0) × (entry.entry_type ≡ pos 1))
      ⊎ ((m.entry_type ≢ pos 0) × (entry.entry_type ≡ m.entry_type))
  pub payload_type : entry.payload_type ≡ m.payload_type
  pub node : entry.node ≡ host
  pub labels : entry.labels ≡ m.labels
  pub search_tokens : entry.search_tokens ≡ m.search_tokens

pub entry_of-IsOf : (node : Str) (m : Message) → IsOf node m (entry_of node m)
unfolding entry_of
entry_of-IsOf node m = record {
  text = refl;
  timestamp = refl;
  level = refl;
  typed = ground arith;
  payload_type = refl;
  node = refl;
  labels = refl;
  search_tokens = refl;
}

-- What a `BeforeSend` callback makes of an entry; none drops it.
abbrev pub passed : Option (LogEntry → Option LogEntry) → LogEntry → Option LogEntry
passed none entry = some entry
passed (some hook) entry = hook entry

-- The messages of a batch, all of them acceptable, and what is to be sent: what the callback makes of each,
-- in order, without those that it drops.
pub data Kept (clock : Clock) (node : Str) (hook : Option (LogEntry → Option LogEntry))
    : List Message → List LogEntry → Type 0 where
  no_more : Kept clock node hook [] []
  drops :
      (m : Message) (input : LogEntry) {ms : List Message} {entries : List LogEntry}
      → IsOf node m input
      → IsAcceptable clock input
      → passed hook input ≡ none
      → Kept clock node hook ms entries
      → Kept clock node hook (m ∷ ms) entries
  keeps :
      (m : Message) (input entry : LogEntry) {ms : List Message} {entries : List LogEntry}
      → IsOf node m input
      → IsAcceptable clock input
      → passed hook input ≡ some entry
      → Kept clock node hook ms entries
      → Kept clock node hook (m ∷ ms) (entry ∷ entries)

-- One round of the loop over the messages, with what validation and the callback say.
pub collected-Kept :
    (clock : Clock) (node : Str) (hook : Option (LogEntry → Option LogEntry)) (m : Message)
    (ms : List Message) (v : Option EntryError) (given : Option LogEntry)
    (rest : Except EntryError (List LogEntry)) (entries : List LogEntry)
    → validate_entry clock (entry_of node m) ≡ v
    → passed hook (entry_of node m) ≡ given
    → ((es : List LogEntry) → rest ≡ ok es → Kept clock node hook ms es)
    → collected v given rest ≡ ok entries
    → Kept clock node hook (m ∷ ms) entries
collected-Kept clock node hook m ms (some e) given rest entries hv hg k h = cc
collected-Kept clock node hook m ms none given (err e) entries hv hg k h = cc
collected-Kept clock node hook m ms none none (ok es) entries hv hg k h =
    subst (Kept clock node hook (m ∷ ms)) (ok_injective h) (
      drops m (entry_of node m) (entry_of-IsOf node m)
        ((validate_entry_iff clock (entry_of node m)).0 hv) hg (k es refl))
collected-Kept clock node hook m ms none (some entry) (ok es) entries hv hg k h =
    subst (Kept clock node hook (m ∷ ms)) (ok_injective h) (
      keeps m (entry_of node m) entry (entry_of-IsOf node m)
        ((validate_entry_iff clock (entry_of node m)).0 hv) hg (k es refl))
