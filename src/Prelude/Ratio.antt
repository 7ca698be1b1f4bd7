-- ===== src/Prelude/Ratio.antt =====
-- Quotients of integers, for the floats that a program divides integers into; they are exact here.
use bootchart.Prelude.{ℕ, suc, ◌+◌, ◌-◌, ◌*◌, ◌/◌, ◌%◌, Bool, ltb, if◌then◌else◌}
use bootchart.Prelude.Results.{Result, ok, err, zero_division}
use bootchart.Prelude.Int.{ℤ, pos, negsuc, ◌+ℤ◌, ◌-ℤ◌, ◌*ℤ◌, ltb_ℤ, eqb_ℤ}

pub record Ratio : Type 0 where
  pub num : ℤ
  pub den : ℕ

-- a / b; the sign goes to the numerator.
unfoldable pub ratio : ℤ → ℤ → Ratio
ratio a (pos d) = record { num = a; den = d }
ratio a (negsuc d) = record { num = pos 0 -ℤ a; den = suc d }

unfoldable pub add_ratio : Ratio → Ratio → Ratio
add_ratio a b = record { num = a.num *ℤ pos b.den +ℤ b.num *ℤ pos a.den; den = a.den * b.den }

-- a / b for b > 0
unfoldable pub divide_ratio : Ratio → Ratio → Ratio
unfolding ratio
divide_ratio a b = ratio (a.num *ℤ pos b.den) (b.num *ℤ pos a.den)

-- x > 0.0 and x > 1.0
unfoldable pub is_positive : Ratio → Bool
is_positive a = ltb_ℤ (pos 0) a.num

unfoldable pub exceeds_one : Ratio → Bool
exceeds_one a = ltb_ℤ (pos a.den) a.num

-- round(a / d) for a ≥ 0: to the nearest number, and to the even one of two.
unfoldable pub round_half_even : ℕ → ℕ → ℕ
round_half_even a d =
    if ltb (2 * (a % d)) d
    then a / d
    else if ltb d (2 * (a % d))
    then a / d + 1
    else a / d + a / d % 2

-- round(x)
unfoldable pub round_ratio : Ratio → ℤ
unfolding round_half_even
round_ratio r = elim r.num [
  | pos a ↦ pos (round_half_even a r.den)
  | negsuc a ↦ pos 0 -ℤ pos (round_half_even (suc a) r.den)
]

-- math.ceil(x)
unfoldable pub ceil_ratio : Ratio → ℤ
ceil_ratio r = elim r.num [
  | pos a ↦ pos ((a + (r.den - 1)) / r.den)
  | negsuc a ↦ pos 0 -ℤ pos (suc a / r.den)
]

-- a / b, which raises for b = 0.
unfoldable pub divide : ℤ → ℤ → Result Ratio
unfolding ratio
divide a b = if eqb_ℤ b (pos 0) then err zero_division else ok (ratio a b)
