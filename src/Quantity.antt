-- ===== src/Quantity.antt =====
-- q2 and q3 of apps/api/app/services: a decimal number made a whole number of hundredths or
-- thousandths, rounding half away from zero.
use sweetops.Base.{ℕ, zero, suc, ◌+◌, ◌-◌, ◌*◌, ◌/◌, ◌^◌, leb, if◌then◌else◌}
use sweetops.Int.{ℤ, pos, negsuc}

-- `decimal.Decimal`: coefficient · 10^(-places).
pub record Decimal : Type 0 where
  pub coefficient : ℤ
  pub places : ℕ

-- ROUND_HALF_UP of m / d.
pub round_half_up : ℕ → ℕ → ℕ
round_half_up m d = (2 * m + d) / (2 * d)

abbrev map_magnitude : (ℕ → ℕ) → ℤ → ℤ
map_magnitude f (pos n) = pos (f n)
map_magnitude f (negsuc n) = elim (f (suc n)) [ zero ↦ pos 0 | suc k ↦ negsuc k ]

-- `x.quantize(Decimal(10) ** -n, rounding=ROUND_HALF_UP)`, in units of 10^(-n).
pub quantize : ℕ → Decimal → ℤ
unfolding round_half_up
quantize n x =
    if leb x.places n
    then map_magnitude (λ m. m * 10 ^ (n - x.places)) x.coefficient
    else map_magnitude (λ m. round_half_up m (10 ^ (x.places - n))) x.coefficient

-- Money, in hundredths.
unfoldable pub q2 : Decimal → ℤ
unfolding quantize
q2 x = quantize 2 x

-- Stock, in thousandths.
unfoldable pub q3 : Decimal → ℤ
unfolding quantize
q3 x = quantize 3 x
