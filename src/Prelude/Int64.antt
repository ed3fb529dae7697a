-- ===== src/Prelude/Int64.antt =====
-- Go's int64: integers with the wrap-around written out.
use subport.Prelude.{
  ℕ, suc, ◌+◌, ◌-◌, ◌*◌, ◌/◌, ◌%◌, ◌^◌, ◌≤◌, ◌<◌, ◌≡◌, refl, Bool, true, false, arith, ltb, ◌==◌,
  if◌then◌else◌,
}
use subport.Prelude.Int.{ℤ, pos, negsuc, ◌+ℤ◌, ◌*ℤ◌}

abbrev pub two_63 : ℕ
two_63 = 2 ^ 63

abbrev pub two_64 : ℕ
two_64 = 2 ^ 64

-- The int64 congruent to an integer modulo 2^64.
unfoldable pub wrap64 : ℤ → ℤ
wrap64 (pos n) = let m = n % two_64 in if ltb m two_63 then pos m else negsuc (two_64 - 1 - m)
wrap64 (negsuc n) = let m = n % two_64 in if ltb m two_63 then negsuc m else pos (two_64 - 1 - m)

unfoldable pub add64 : ℤ → ℤ → ℤ
add64 a b = wrap64 (a +ℤ b)

unfoldable pub mul64 : ℤ → ℤ → ℤ
mul64 a b = wrap64 (a *ℤ b)

-- Division by a positive constant truncates towards zero.
unfoldable pub quot64 : ℤ → ℕ → ℤ
quot64 (pos n) d = pos (n / d)
quot64 (negsuc n) d = if (n + 1) / d == 0 then pos 0 else negsuc ((n + 1) / d - 1)

abbrev pub is_zero : ℤ → Bool
is_zero (pos n) = n == 0
is_zero (negsuc n) = false

abbrev pub is_negative : ℤ → Bool
is_negative (pos n) = false
is_negative (negsuc n) = true

abbrev pub is_positive : ℤ → Bool
is_positive (pos n) = ltb 0 n
is_positive (negsuc n) = false

-- A number below 2^63 is itself.
pub wrap64-pos : (n : ℕ) → n < two_63 → wrap64 (pos n) ≡ pos n
unfolding wrap64
wrap64-pos n h = ground arith

pub add64-pos : (a b : ℕ) → a + b < two_63 → add64 (pos a) (pos b) ≡ pos (a + b)
unfolding add64 wrap64 ◌+ℤ◌
add64-pos a b h = ground arith

pub mul64-pos : (a b : ℕ) → a * b < two_63 → mul64 (pos a) (pos b) ≡ pos (a * b)
unfolding mul64 wrap64 ◌*ℤ◌
mul64-pos a b h = ground arith

pub mul64_zero_left : (x : ℤ) → mul64 (pos 0) x ≡ pos 0
unfolding mul64 wrap64 ◌*ℤ◌
mul64_zero_left (pos n) = ground arith
mul64_zero_left (negsuc n) = ground arith

-- Between 2^63 and 2^64 the product is read as a negative number.
pub mul64_wraps :
    (a b : ℕ)
    → two_63 ≤ a * b
    → a * b < two_64
    → mul64 (pos a) (pos b) ≡ negsuc (two_64 - 1 - a * b)
unfolding mul64 wrap64 ◌*ℤ◌
mul64_wraps a b h k = ground arith

pub ruleset int64_laws = (arith, wrap64-pos, add64-pos, mul64-pos)
