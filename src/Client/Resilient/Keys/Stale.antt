-- ===== src/Client/Resilient/Keys/Stale.antt =====
-- pkg/client/resilient_client.go: a delivery whose session `RenewSession` replaces before its parts are built.
use logflux_go_sdk.Prelude.{
  ◌≡◌, refl, ◌⊎◌, inl, inr, is_none, Bool, false, true, [], ◌∷◌, Option, none, some, Str, ok,
}
use logflux_go_sdk.Models.{Time, LogEntry, entry_type_requires_encryption}
use logflux_go_sdk.Crypto.{Primitives, IsSound, Encryptor, close, new_encryptor}
use logflux_go_sdk.Client.Multipart.{Part, build_part}
use logflux_go_sdk.Client.Multipart.Parts.{receive, build_part-Carries}
use logflux_go_sdk.Client.Resilient.Keys.{
  Session, Delivery, Built, KeyState, cell_of, close_at, new_keys, read_pointers, swap_session,
  builder_at, reads, builds, swaps, closes, KeyReach, begun, moved,
}
use logflux_go_sdk.Client.Resilient.Keys.Sealed.{zeros, build_part-key_id}

abbrev pub first_delivery : Session → Delivery
first_delivery s = record { pointer = 0; key_uuid = s.key_uuid }

abbrev pub closed_encryptor : Session → Encryptor
closed_encryptor s = close (new_encryptor s.key)

-- The state after a delivery has read the pointers, the session was renewed, and the old encryptor closed.
abbrev pub renewed : Session → Session → KeyState
renewed old new = record {
  heap = record (cell_of old) { encryptor = closed_encryptor old; ended = true } ∷ cell_of new ∷ [];
  current = 1;
  key_uuid = new.key_uuid;
  to_close = [];
  deliveries = first_delivery old ∷ [];
  parts = [];
}

module _ (p : Primitives) (format : Time → Str) (compress : Bool) where
  pub renewed-KeyReach :
      (old new : Session) → KeyReach p format compress (new_keys old) (renewed old new)
  unfolding new_keys read_pointers swap_session close_at new_encryptor
  renewed-KeyReach old new = moved (moved (moved begun reads) (swaps new)) (closes [] [] 0 refl)

  given :
      (id : Option Str) (uuid : Str)
      → is_none id ≡ false
      → (id ≡ none) ⊎ (id ≡ some uuid)
      → id ≡ some uuid
  given none uuid h o = cc
  given (some u) uuid h (inl e) = cc
  given (some u) uuid h (inr e) = e

  -- `RenewSession` can make a delivery seal with zero bytes. For any two sessions and any entry of a type
  -- that is encrypted, whose part can be built with a key of as many zero bytes as the first session's: some
  -- order of steps, from a client with the first session on, ends in the second session with that part built,
  -- under the first session's key id, and a receiver with a key of zero bytes reads the message out of it.
  pub stale_delivery :
      IsSound p
      → (old new : Session) (entry : LogEntry) (drawn : Option Str) (part : Part)
      → entry_type_requires_encryption entry.entry_type ≡ true
      → build_part p format
          (builder_at compress (first_delivery old) (closed_encryptor old))
          entry
          drawn
        ≡ ok part
      → (s : KeyState) × KeyReach p format compress (new_keys old) s
        × (s.key_uuid ≡ new.key_uuid)
        × ((b : Built) × (s.parts ≡ b ∷ []) × (b.part ≡ part) × (b.entry ≡ entry))
        × (part.key_id ≡ some old.key_uuid)
        × (receive p (zeros old.key) compress part ≡ some entry.message)
  unfolding new_encryptor close
  stale_delivery sound old new entry drawn part e h =
      let b = builder_at compress (first_delivery old) (closed_encryptor old) in
      let c = build_part-Carries p sound format b entry drawn part h in
      (
        _,
        moved (renewed-KeyReach old new)
            (builds 0 (first_delivery old) _ entry drawn part refl refl h),
        refl,
        (_, refl, refl, refl),
        given part.key_id old.key_uuid (c.sealed.1 e)
            (build_part-key_id p format b entry drawn part h),
        c.message,
      )
