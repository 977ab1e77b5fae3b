-- ===== src/Double.antt =====
-- C's `double` as its 64-bit pattern, with the comparisons that backend/avl.c and backend/zset.c make.
use rediskrazy.Base.{ℕ, ◌+◌, ◌-◌, ◌*◌, ◌%◌, ◌^◌, Bool, ◌&&◌, ltb, ◌==◌, not, if◌then◌else◌}

-- A bit pattern below 2 ^ 64.
abbrev pub Double : Type 0
Double = ℕ

-- All exponent bits set and a nonzero fraction.
unfoldable pub is_nan : Double → Bool
is_nan d = ltb (2047 * 2 ^ 52) (d % 2 ^ 63)

-- The place of a pattern in the order of the doubles that are not NaN: the negative ones run
-- downwards, and both zeros share the place 2 ^ 63.
unfoldable pub place : Double → ℕ
place d = if ltb d (2 ^ 63) then 2 ^ 63 + d else 2 ^ 64 - d

-- `a < b` on doubles: false if either is NaN.
unfoldable pub double_lt : Double → Double → Bool
unfolding is_nan place
double_lt a b = not (is_nan a) && not (is_nan b) && ltb (place a) (place b)

-- `a != b` on doubles: true if either is NaN, false between the two zeros.
unfoldable pub double_ne : Double → Double → Bool
unfolding is_nan place
double_ne a b = not (not (is_nan a) && not (is_nan b) && (place a == place b))
