-- ===== src/Prelude/Decimal.antt =====
-- `str` of an integer: its decimal digits.
pub mod Laws
pub mod Splits
use Prim.Native.Nat.{ℕ, zero, suc, ◌+◌, ◌/◌, ◌%◌}
use mathlib.Core.List.{[], ◌∷◌}
use bootchart.Prelude.Tests.{ltb, if◌then◌else◌}
use bootchart.Prelude.Strings.{Text}
use bootchart.Prelude.Int.{ℤ, pos, negsuc}

abbrev digit : ℕ → ℕ
digit n = n % 10 + 48

-- The digits of `n` in front of a text, by at most `fuel` divisions.
unfoldable pub digits_before : ℕ → ℕ → Text → Text
digits_before zero n s = s
digits_before (suc fuel) n s =
    let more : Text = digits_before fuel (n / 10) (digit n ∷ s) in
    if ltb n 10 then digit n ∷ s else more

-- A number has fewer digits than it counts, and one more than none.
unfoldable pub str : ℤ → Text
unfolding digits_before
str (pos n) = digits_before (suc n) n []
str (negsuc n) = 45 ∷ digits_before (suc (suc n)) (suc n) []
