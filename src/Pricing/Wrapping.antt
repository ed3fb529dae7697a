-- ===== src/Pricing/Wrapping.antt =====
-- The cost outside the range of int64: a product between 2^63 and 2^64 turns negative.
use subport.Prelude.{ℕ, ◌+◌, ◌-◌, ◌*◌, ◌≤◌, ◌<◌, ◌≡◌, true, arith}
use subport.Prelude.Int.{pos, negsuc, ◌+ℤ◌}
use subport.Prelude.Int64.{two_63, two_64, is_negative, wrap64, add64, quot64, mul64_wraps}
use subport.Pricing.{BilledRate, denominator, div_rounded, cost}
use subport.Pricing.Rounding.{total_only, numerator-total_only}

div_rounded_negative :
    (k : ℕ) → 2 * denominator ≤ k → k < two_63 → is_negative (div_rounded (negsuc k)) ≡ true
unfolding div_rounded add64 wrap64 quot64 ◌+ℤ◌
div_rounded_negative k h l = ground arith

-- When the product of tokens and rate is below 2^63, and its product with the ratio lies between 2^63
-- and 2^64 (less a margin of two denominators), the cost of a total-only report is negative, although every input is positive.
pub cost_wraps_negative :
    (n r q : ℕ) (rate : BilledRate)
    → rate.input ≡ pos r
    → rate.ratio ≡ pos q
    → n * r < two_63
    → two_63 ≤ n * r * q
    → n * r * q + 2 * denominator + 1 ≤ two_64
    → is_negative (cost (total_only n) rate) ≡ true
unfolding cost
cost_wraps_negative n r q rate e f fits above below =
    rw (numerator-total_only n r rate e fits, f)
      (rw (mul64_wraps (n * r) q above (omega arith))
        (div_rounded_negative (two_64 - 1 - n * r * q) (omega arith) (omega arith)))
