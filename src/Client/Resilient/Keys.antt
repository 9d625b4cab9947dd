-- ===== src/Client/Resilient/Keys.antt =====
-- pkg/client/resilient_client.go with pkg/crypto/crypto.go and pkg/client/multipart.go: the encryptors as
-- objects in memory, which deliveries share with `RenewSession` and `Close`. A delivery copies the pointer
-- and the key id under the lock, and seals its parts later, one by one, each with the bytes that the key
-- then has; `EncryptRaw` and `Encryptor.Close` hold the encryptor's own lock, so each is one step.
pub mod Sealed
pub mod Stale
mod Tests
use logflux_go_sdk.Prelude.{
  ℕ, zero, suc, ◌≡◌, Bool, true, false, List, [], ◌∷◌, ◌++◌, Option, some, Str, length, get_elem?,
  ok,
}
use logflux_go_sdk.Models.{Time, LogEntry}
use logflux_go_sdk.Crypto.{Primitives, Encryptor, new_encryptor, close}
use logflux_go_sdk.Client.Multipart.{MultipartBuilder, Part, build_part}

-- What a handshake agrees on.
pub record Session : Type 0 where
  pub key : Str
  pub key_uuid : Str

-- An encryptor in memory, with the session that it was made for and whether it was closed.
pub record Cell : Type 0 where
  pub encryptor : Encryptor
  pub session : Session
  pub ended : Bool

-- The pointer and the key id that a delivery read.
pub record Delivery : Type 0 where
  pub pointer : ℕ
  pub key_uuid : Str

-- A part that was built, and the encryptor's cell at that time.
pub record Built : Type 0 where
  pub part : Part
  pub entry : LogEntry
  pub cell : Cell

-- `current` and `key_uuid` are the client's `encryptor` and `keyUUID`; `to_close` are the encryptors that
-- a `RenewSession` or a `Close` has read and is about to close.
pub record KeyState : Type 0 where
  pub heap : List Cell
  pub current : ℕ
  pub key_uuid : Str
  pub to_close : List ℕ
  pub deliveries : List Delivery
  pub parts : List Built

abbrev pub cell_of : Session → Cell
cell_of s = record { encryptor = new_encryptor s.key; session = s; ended = false }

-- `Encryptor.Close` on the encryptor at a pointer.
unfoldable pub close_at : List Cell → ℕ → List Cell
unfolding close
close_at [] i = []
close_at (c ∷ cs) zero = record c { encryptor = close c.encryptor; ended = true } ∷ cs
close_at (c ∷ cs) (suc i) = c ∷ close_at cs i

unfoldable pub new_keys : Session → KeyState
unfolding new_encryptor
new_keys s = record {
  heap = cell_of s ∷ [];
  current = 0;
  key_uuid = s.key_uuid;
  to_close = [];
  deliveries = [];
  parts = [];
}

-- The first lines of `buildMultipartBody`.
unfoldable pub read_pointers : KeyState → KeyState
read_pointers s = record s {
  deliveries = s.deliveries ++ record { pointer = s.current; key_uuid = s.key_uuid } ∷ [];
}

-- What `RenewSession` does under the lock, with what the handshake gave.
unfoldable pub swap_session : KeyState → Session → KeyState
unfolding new_encryptor
swap_session s new = record s {
  heap = s.heap ++ cell_of new ∷ [];
  current = length s.heap;
  key_uuid = new.key_uuid;
  to_close = s.current ∷ s.to_close;
}

abbrev pub builder_at : Bool → Delivery → Encryptor → MultipartBuilder
builder_at compress d e = record {
  encryptor = e;
  key_uuid = d.key_uuid;
  enable_compression = compress;
}

module _ (p : Primitives) (format : Time → Str) (compress : Bool) where
  pub data KeyStep (s : KeyState) : KeyState → Type 0 where
    reads : KeyStep s (read_pointers s)
    builds :
        (i : ℕ) (d : Delivery) (c : Cell) (entry : LogEntry) (drawn : Option Str) (part : Part)
        → get_elem? s.deliveries i ≡ some d
        → get_elem? s.heap d.pointer ≡ some c
        → build_part p format (builder_at compress d c.encryptor) entry drawn ≡ ok part
        → KeyStep s
            (record s { parts = s.parts ++ record { part = part; entry = entry; cell = c } ∷ [] })
    swaps : (new : Session) → KeyStep s (swap_session s new)
    begins_close : KeyStep s (record s { to_close = s.current ∷ s.to_close })
    closes :
        (before after : List ℕ) (r : ℕ)
        → s.to_close ≡ before ++ r ∷ after
        → KeyStep s (record s { heap = close_at s.heap r; to_close = before ++ after })

  pub data KeyReach (start : KeyState) : KeyState → Type 0 where
    begun : KeyReach start start
    moved : {s t : KeyState} → KeyReach start s → KeyStep s t → KeyReach start t
