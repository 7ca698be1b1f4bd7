-- ===== src/Prelude/Decimal/Splits.antt =====
-- Texts of digits between separators.
use Prim.Native.Nat.{ℕ, ◌≤◌}
use mathlib.Core.List.{[], ◌∷◌, ◌++◌}
use mathlib.Core.Path.{◌≡◌, refl}
use mathlib.Core.Bool.{false}
use bootchart.Prelude.Tests.{◌==◌, ==_iff}
use bootchart.Prelude.Strings.{Text}
use bootchart.Prelude.Words.{split_on}
use bootchart.Prelude.Decimal.Laws.{AllDigits}

-- A text without a character.
abbrev pub IsWithout : ℕ → Text → Type 0
IsWithout c [] = Unit
IsWithout c (x ∷ s) = ((x == c) ≡ false) × IsWithout c s

pub IsWithout-append : (c : ℕ) (s t : Text) → IsWithout c s → IsWithout c t → IsWithout c (s ++ t)
IsWithout-append c [] t h k = k
IsWithout-append c (x ∷ s) t h k = (h.0, IsWithout-append c s t h.1 k)

pub split_on-append :
    (c : ℕ) (s t : Text) → IsWithout c s → split_on c (s ++ (c ∷ t)) ≡ s ∷ split_on c t
unfolding split_on
split_on-append c [] t h = rw ((==_iff c c).1 refl) refl
split_on-append c (x ∷ s) t h = rw (h.0, split_on-append c s t h.1) refl

pub split_on-single : (c : ℕ) (s : Text) → IsWithout c s → split_on c s ≡ s ∷ []
unfolding split_on
split_on-single c [] h = refl
split_on-single c (x ∷ s) h = rw (h.0, split_on-single c s h.1) refl

-- Digits have neither a space nor the end of a line.
pub digits-IsWithout :
    (c : ℕ) (s : Text)
    → ((x : ℕ) → 48 ≤ x → x ≤ 57 → (x == c) ≡ false)
    → AllDigits s
    → IsWithout c s
digits-IsWithout c [] apart h = tt
digits-IsWithout c (x ∷ s) apart (a, b, h) = (apart x a b, digits-IsWithout c s apart h)
