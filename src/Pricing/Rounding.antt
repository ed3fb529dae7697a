-- ===== src/Pricing/Rounding.antt =====
-- The cost inside the range of int64: the exact price, rounded once to the nearest unit.
use subport.Prelude.{ℕ, ◌+◌, ◌*◌, ◌/◌, ◌≤◌, ◌<◌, String, ◌≡◌, refl, ap, ◌∙◌, true, arith}
use subport.Prelude.Int.{pos, ◌≤ℤ◌}
use subport.Prelude.Int64.{two_63, mul64, quot64, add64-pos, mul64-pos, mul64_zero_left}
use subport.Pricing.{
  TokenCounts, BilledRate, has_breakdown, flat_price, rate_for, billable, numerator, denominator,
  rate_scale, ratio_scale, floor_zero, div_rounded, cost,
}

-- A call as natural numbers: the four classes with their rates, and the ratio.
pub record Bill : Type 0 where
  pub input : ℕ
  pub output : ℕ
  pub cache_read : ℕ
  pub cache_write : ℕ
  pub rate_input : ℕ
  pub rate_output : ℕ
  pub rate_cache_read : ℕ
  pub rate_cache_write : ℕ
  pub ratio : ℕ

abbrev pub counts_of : Bill → ℕ → TokenCounts
counts_of b total = record {
  input = pos b.input;
  output = pos b.output;
  cache_read = pos b.cache_read;
  cache_write = pos b.cache_write;
  total = pos total;
}

abbrev pub rate_of : Bill → BilledRate
rate_of b = record {
  input = pos b.rate_input;
  output = pos b.rate_output;
  cache_read = pos b.rate_cache_read;
  cache_write = pos b.rate_cache_write;
  ratio = pos b.ratio;
}

-- The weighted sum as an exact number.
abbrev pub exact_sum : Bill → ℕ
exact_sum b =
    b.input * b.rate_input
    + b.output * b.rate_output
    + b.cache_read * b.rate_cache_read
    + b.cache_write * b.rate_cache_write

-- The exact price in units of 1 / denominator, with room for the rounding constant.
abbrev pub Fits : ℕ → ℕ → Type 0
Fits sum ratio = (sum < two_63) × (sum * ratio + denominator / 2 < two_63)

pub div_rounded-pos :
    (n : ℕ)
    → n + denominator / 2 < two_63
    → div_rounded (pos n) ≡ pos ((n + denominator / 2) / denominator)
unfolding div_rounded quot64
div_rounded-pos n h = rw (add64-pos n (denominator / 2) h)

numerator-pos :
    (b : Bill) (total : ℕ)
    → exact_sum b < two_63
    → numerator (counts_of b total) (rate_of b) ≡ pos (exact_sum b)
unfolding numerator
numerator-pos b total h =
    rw
      (
        mul64-pos b.input b.rate_input (omega arith),
        mul64-pos b.output b.rate_output (omega arith),
        mul64-pos b.cache_read b.rate_cache_read (omega arith),
        mul64-pos b.cache_write b.rate_cache_write (omega arith),
        add64-pos (b.input * b.rate_input) (b.output * b.rate_output) (omega arith),
        add64-pos (b.input * b.rate_input + b.output * b.rate_output)
            (b.cache_read * b.rate_cache_read) (omega arith),
      )
      (add64-pos _ _ h)

scaled-pos :
    (b : Bill) (total : ℕ)
    → Fits (exact_sum b) b.ratio
    → mul64 (floor_zero (numerator (counts_of b total) (rate_of b))) (floor_zero (rate_of b).ratio)
      ≡ pos (exact_sum b * b.ratio)
scaled-pos b total h =
    rw (numerator-pos b total h.0) (mul64-pos (exact_sum b) b.ratio (omega arith))

-- A nearest multiple: `q` is `n / d` rounded half up.
abbrev pub IsNearest : ℕ → ℕ → ℕ → Type 0
IsNearest n d q = (2 * (q * d) ≤ 2 * n + d) × (2 * n < 2 * (q * d) + d)

nearest : (n : ℕ) → IsNearest n denominator ((n + denominator / 2) / denominator)
nearest n = omega arith

cost-pos :
    (b : Bill) (total : ℕ)
    → has_breakdown (counts_of b total) ≡ true
    → Fits (exact_sum b) b.ratio
    → cost (counts_of b total) (rate_of b)
      ≡ pos ((exact_sum b * b.ratio + denominator / 2) / denominator)
unfolding cost billable
cost-pos b total some_part h =
    rw some_part (rw (scaled-pos b total h) (div_rounded-pos (exact_sum b * b.ratio) h.1))

-- When a report of counts, rates and a ratio that are not negative has a breakdown, and the weighted
-- sum, its product with the ratio and the rounding constant fit an int64, the cost is the exact price rounded half up to a whole unit, which is at
-- most half a unit away; so it is not negative, and the parts are never rounded one by one.
pub cost-IsNearest :
    (b : Bill) (total : ℕ)
    → has_breakdown (counts_of b total) ≡ true
    → Fits (exact_sum b) b.ratio
    → (q : ℕ) × (cost (counts_of b total) (rate_of b) ≡ pos q)
      × IsNearest (exact_sum b * b.ratio) denominator q
cost-IsNearest b total some_part h =
    let (lower, upper) = nearest (exact_sum b * b.ratio) in
    (
      (exact_sum b * b.ratio + denominator / 2) / denominator,
      cost-pos b total some_part h,
      (lower, upper),
    )

-- A report of a total alone, as the gateway makes it.
abbrev pub total_only : ℕ → TokenCounts
total_only n = record {
  input = pos 0;
  output = pos 0;
  cache_read = pos 0;
  cache_write = pos 0;
  total = pos n;
}

pub numerator-total_only :
    (n r : ℕ) (rate : BilledRate)
    → rate.input ≡ pos r
    → n * r < two_63
    → numerator (billable (total_only n)) rate ≡ pos (n * r)
unfolding numerator billable
numerator-total_only n r rate e h =
    rw
      (
        mul64_zero_left rate.output,
        mul64_zero_left rate.cache_read,
        mul64_zero_left rate.cache_write,
      )
      (rw e (
        rw (mul64-pos n r h, add64-pos (n * r) 0 (omega arith))
          (ground (arith, add64-pos (n * r) 0))))

-- A total with no breakdown is charged whole at the input rate: `n` tokens at `r` units a million
-- and ratio `q` cost `n * r * q` rounded half up to whole units, if that fits an int64.
pub cost-total_only :
    (n r q : ℕ) (rate : BilledRate)
    → rate.input ≡ pos r
    → rate.ratio ≡ pos q
    → Fits (n * r) q
    → cost (total_only n) rate ≡ pos ((n * r * q + denominator / 2) / denominator)
unfolding cost
cost-total_only n r q rate e f h =
    rw (numerator-total_only n r rate e h.0, f)
      (rw (mul64-pos (n * r) q (omega arith)) (div_rounded-pos (n * r * q) h.1))

-- A model with no rate card at list price costs one unit for one token, up to 922,337,203 tokens:
-- the flat card at a million units per million tokens and the ratio 1.0 are the identity.
pub cost-flat_price :
    (model : String) (n : ℕ)
    → n ≤ 922337203
    → cost (total_only n) (rate_for (flat_price model (pos rate_scale)) (pos ratio_scale)) ≡ pos n
unfolding rate_for flat_price
cost-flat_price model n h =
    cost-total_only n rate_scale ratio_scale _ refl refl (omega arith) ∙ ap pos (omega arith)

mul_le_mul : (a b c : ℕ) → a ≤ b → a * c ≤ b * c
mul_le_mul a b c h = grind arith

-- At one rate and ratio, more tokens never cost less, while the larger price fits an int64.
pub cost-total_only-mono :
    (m n r q : ℕ) (rate : BilledRate)
    → rate.input ≡ pos r
    → rate.ratio ≡ pos q
    → m ≤ n
    → Fits (n * r) q
    → cost (total_only m) rate ≤ℤ cost (total_only n) rate
cost-total_only-mono m n r q rate e f le h =
    let sums : m * r ≤ n * r = mul_le_mul m n r le in
    let products : m * r * q ≤ n * r * q = mul_le_mul (m * r) (n * r) q sums in
    rw (cost-total_only m r q rate e f (omega arith), cost-total_only n r q rate e f h)
      (omega arith)
