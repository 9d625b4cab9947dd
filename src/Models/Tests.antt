-- ===== src/Models/Tests.antt =====
-- Tests of pkg/models/models.go.
use logflux_go_sdk.Prelude.{pos, ◌≡◌, refl, true, false}
use logflux_go_sdk.Models.{
  entry_type_category, events, traces, audit, entry_type_requires_encryption, default_payload_type,
}

categories :
    (entry_type_category (pos 4) ≡ events)
    × (entry_type_category (pos 7) ≡ traces)
    × (entry_type_category (pos 5) ≡ audit)
    × (entry_type_category (pos 99) ≡ events)
unfolding entry_type_category
categories = (refl, refl, refl, refl)

encryption :
    (entry_type_requires_encryption (pos 0) ≡ false)
    × (entry_type_requires_encryption (pos 6) ≡ true)
    × (entry_type_requires_encryption (pos 7) ≡ false)
unfolding entry_type_requires_encryption
encryption = (refl, refl, refl)

payloads : (default_payload_type (pos 7) ≡ pos 3) × (default_payload_type (pos 2) ≡ pos 1)
unfolding default_payload_type
payloads = (refl, refl)
