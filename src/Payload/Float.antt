-- ===== src/Payload/Float.antt =====
-- Go's float64, which the payloads and the sampler carry, as its 64 bits: the comparisons of IEEE 754.
use logflux_go_sdk.Prelude.{
  ℕ, ◌-◌, ◌*◌, ◌^◌, ◌%◌, ℤ, pos, negsuc, leb_ℤ, ltb_ℤ, Bool, not, ◌&&◌, if◌then◌else◌, ltb, ◌==◌,
}

abbrev pub Float64 : Type 0
Float64 = ℕ

-- The bits of positive infinity; a NaN has more than these without its sign.
unfoldable pub infinity_bits : ℕ
infinity_bits = 2047 * 2 ^ 52

unfoldable pub float_one : Float64
float_one = 1023 * 2 ^ 52

abbrev pub float_zero : Float64
float_zero = 0

unfoldable pub magnitude : Float64 → ℕ
magnitude x = x % 2 ^ 63

unfoldable pub is_nan : Float64 → Bool
unfolding magnitude infinity_bits
is_nan x = ltb infinity_bits (magnitude x)

-- Neither a NaN nor infinite.
unfoldable pub is_finite : Float64 → Bool
unfolding magnitude infinity_bits
is_finite x = ltb (magnitude x) infinity_bits

-- The place of a number among the others; both zeros have the same.
unfoldable pub rank : Float64 → ℤ
unfolding magnitude
rank x =
    if ltb x (2 ^ 63)
    then pos (magnitude x)
    else if magnitude x == 0
    then pos 0
    else negsuc (magnitude x - 1)

unfoldable pub float_lt : Float64 → Float64 → Bool
unfolding is_nan rank
float_lt x y = not (is_nan x) && (not (is_nan y) && ltb_ℤ (rank x) (rank y))

unfoldable pub float_le : Float64 → Float64 → Bool
unfolding is_nan rank
float_le x y = not (is_nan x) && (not (is_nan y) && leb_ℤ (rank x) (rank y))
