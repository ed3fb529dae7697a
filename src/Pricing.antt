-- ===== src/Pricing.antt =====
-- internal/model/pricing.go: token counts, rate cards and the cost of a call, in int64 arithmetic.
-- The sums and products wrap as Go's do; `div_rounded` is the last line of `Cost`.
pub mod Rounding
pub mod Wrapping
use subport.Prelude.{ℕ, ◌+◌, ◌*◌, ◌/◌, String, Bool, ◌||◌, not, if◌then◌else◌}
use subport.Prelude.Int.{ℤ, pos}
use subport.Prelude.Int64.{add64, mul64, quot64, is_zero, is_negative}

-- Fixed-point scale of ratios: 10000 is 1.0x.
abbrev pub ratio_scale : ℕ
ratio_scale = 10000

-- Rates are quota units per million tokens.
abbrev pub rate_scale : ℕ
rate_scale = 1000000

pub record TokenCounts : Type 0 where
  pub input : ℤ
  pub output : ℤ
  pub cache_read : ℤ
  pub cache_write : ℤ
  pub total : ℤ

unfoldable pub has_breakdown : TokenCounts → Bool
has_breakdown t =
    not (is_zero t.input)
    || not (is_zero t.output)
    || not (is_zero t.cache_read)
    || not (is_zero t.cache_write)

pub sum_parts : TokenCounts → ℤ
sum_parts t = add64 (add64 (add64 t.input t.output) t.cache_read) t.cache_write

pub record ModelPrice : Type 0 where
  pub model : String
  pub input : ℤ
  pub output : ℤ
  pub cache_read : ℤ
  pub cache_write : ℤ

unfoldable pub flat_price : String → ℤ → ModelPrice
flat_price model per_million = record {
  model = model;
  input = per_million;
  output = per_million;
  cache_read = per_million;
  cache_write = per_million;
}

pub record BilledRate : Type 0 where
  pub input : ℤ
  pub output : ℤ
  pub cache_read : ℤ
  pub cache_write : ℤ
  pub ratio : ℤ

unfoldable pub rate_for : ModelPrice → ℤ → BilledRate
rate_for p ratio = record {
  input = p.input;
  output = p.output;
  cache_read = p.cache_read;
  cache_write = p.cache_write;
  ratio = ratio;
}

-- `billable` in `Cost`: a report with no breakdown is charged whole, as input.
unfoldable pub billable : TokenCounts → TokenCounts
unfolding has_breakdown
billable counts = if has_breakdown counts then counts else record {
  input = counts.total;
  output = pos 0;
  cache_read = pos 0;
  cache_write = pos 0;
  total = pos 0;
}

-- The sum over the four classes, in the order of the source.
unfoldable pub numerator : TokenCounts → BilledRate → ℤ
numerator t r =
    add64
      (add64 (add64 (mul64 t.input r.input) (mul64 t.output r.output))
        (mul64 t.cache_read r.cache_read))
      (mul64 t.cache_write r.cache_write)

-- `if x < 0 { x = 0 }`
abbrev pub floor_zero : ℤ → ℤ
floor_zero x = if is_negative x then pos 0 else x

abbrev pub denominator : ℕ
denominator = rate_scale * ratio_scale

unfoldable pub div_rounded : ℤ → ℤ
div_rounded scaled = quot64 (add64 scaled (pos (denominator / 2))) denominator

unfoldable pub cost : TokenCounts → BilledRate → ℤ
cost counts rate =
    let num = numerator (billable counts) rate in
    div_rounded (mul64 (floor_zero num) (floor_zero rate.ratio))
