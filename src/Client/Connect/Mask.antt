-- ===== src/Client/Connect/Mask.antt =====
-- pkg/client/client.go: how much of a key its mask shows.
use logflux_go_sdk.Prelude.{
  ◌≡◌, refl, true, ap, ◌-◌, ◌++◌, inl, inr, Str, codes, if◌then◌else◌, leb, length, drop,
  has_prefix,
}
use logflux_go_sdk.Config.{is_region}
use logflux_go_sdk.Config.Key.{HasFormat, region-cases}
use logflux_go_sdk.Client.Connect.{index_of, mask_api_key, masked_at}

found_at :
    (region body : Str)
    → is_region region ≡ true
    → masked_at
        (index_of (region ++ (codes "-lf_" ++ body)) (codes "lf_"))
        (region ++ (codes "-lf_" ++ body))
      ≡ region
        ++ (codes "-lf_****"
            ++ drop
                (length (region ++ (codes "-lf_" ++ body)) - 4)
                (region ++ (codes "-lf_" ++ body)))
unfolding index_of has_prefix
found_at region body known = elim (region-cases region known) [
  | inl eu ↦ rw eu refl
  | inr (inl us) ↦ rw us refl
  | inr (inr (inl ca)) ↦ rw ca refl
  | inr (inr (inr (inl au))) ↦ rw au refl
  | inr (inr (inr (inr ap))) ↦ rw ap refl
]

-- The mask of a valid key of more than 8 bytes depends on its region and its last four bytes only; a
-- shorter key is not shown at all.
pub mask_api_key-valid :
    (key region body : Str)
    → HasFormat key region body
    → mask_api_key key ≡ (
        if leb (length key) 8
        then codes "****"
        else region ++ (codes "-lf_****" ++ drop (length key - 4) key))
unfolding mask_api_key
mask_api_key-valid key region body f = rw f.split (
    ap (λ x. if leb (length (region ++ (codes "-lf_" ++ body))) 8 then codes "****" else x)
      (found_at region body f.known))
