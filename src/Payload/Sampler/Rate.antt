-- ===== src/Payload/Sampler/Rate.antt =====
-- pkg/payload/sampler.go: the clamp of the rate and the two shortcuts change no decision.
use logflux_go_sdk.Prelude.{
  ◌≡◌, refl, sym, Bool, true, false, not, ◌&&◌, Bool-cases, inl, inr, if◌then◌else◌, arith, ℤ,
  ltb_ℤ, leb_ℤ,
}
use logflux_go_sdk.Payload.Float.{
  Float64, float_one, float_zero, float_lt, float_le, is_nan, rank, magnitude, infinity_bits,
}
use logflux_go_sdk.Payload.Sampler.{new_sampler, should_sample}

-- The comparisons, on whether a number is a NaN and its place.
abbrev lt_at : Bool → ℤ → Bool → ℤ → Bool
lt_at m a n b = not m && (not n && ltb_ℤ a b)

abbrev le_at : Bool → ℤ → Bool → ℤ → Bool
le_at m a n b = not m && (not n && leb_ℤ a b)

one_is_number : is_nan float_one ≡ false
unfolding is_nan magnitude infinity_bits float_one
one_is_number = refl

zero_is_number : is_nan float_zero ≡ false
unfolding is_nan magnitude infinity_bits
zero_is_number = refl

constants :
    (float_lt float_one float_zero ≡ false)
    × (float_le float_one float_zero ≡ false)
    × (float_le float_zero float_zero ≡ true)
    × (float_le float_one float_one ≡ true)
    × (float_lt float_zero float_one ≡ true)
unfolding float_lt float_le rank magnitude is_nan infinity_bits float_one
constants = (refl, refl, refl, refl, refl)

decided :
    (nan_r nan_v : Bool) (r v low high : ℤ)
    → ltb_ℤ low high ≡ true
    → le_at false low nan_v v ≡ true
    → lt_at nan_v v false high ≡ true
    → (if le_at false high nan_r r
        then true
        else if le_at nan_r r false low
        then false
        else lt_at nan_v v nan_r r)
      ≡ lt_at nan_v v nan_r r
decided nan_r nan_v r v low high h k l = ground arith

below_zero :
    (x v : Float64)
    → float_lt x float_zero ≡ true
    → float_le float_zero v ≡ true
    → float_lt v x ≡ false
unfolding float_lt float_le
below_zero x v h low = ground arith

above_one :
    (x v : Float64)
    → float_lt float_one x ≡ true
    → float_lt v float_one ≡ true
    → float_lt v x ≡ true
unfolding float_lt
above_one x v h high = ground arith

ranks : ltb_ℤ (rank float_zero) (rank float_one) ≡ true
unfolding rank magnitude float_one
ranks = refl

-- A rate that the clamp leaves as it is.
kept :
    (x v : Float64)
    → float_le float_zero v ≡ true
    → float_lt v float_one ≡ true
    → (if float_le float_one x then true else if float_le x float_zero then false else float_lt v x)
      ≡ float_lt v x
unfolding float_lt float_le
kept x v low high =
    rw (one_is_number, zero_is_number)
      (decided (is_nan x) (is_nan v) (rank x) (rank v) (rank float_zero) (rank float_one) ranks
        (ground (arith, low)) (ground (arith, high, one_is_number)))

-- For a draw from 0 up to but not including 1, a new sampler says yes exactly to the draws that are
-- below the rate that it was made from, whatever that is: below 0, above 1 or no number.
pub should_sample-new_sampler :
    (rate v : Float64)
    → float_le float_zero v ≡ true
    → float_lt v float_one ≡ true
    → should_sample (new_sampler rate) v ≡ float_lt v rate
unfolding should_sample new_sampler
should_sample-new_sampler rate v low high =
    let (one_zero, no_zero, zero_zero, one_one, _) = constants in
    elim (Bool-cases (float_lt rate float_zero)) [
      | inl negative ↦
          simp (negative, one_zero, no_zero, zero_zero) (sym (below_zero rate v negative low))
      | inr not_negative ↦ elim (Bool-cases (float_lt float_one rate)) [
        | inl large ↦ simp (not_negative, large, one_one) (sym (above_one rate v large high))
        | inr small ↦ simp (not_negative, small) (kept rate v low high)
      ]
    ]
