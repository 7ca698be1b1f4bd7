-- ===== src/Prelude/Decimal/Laws.antt =====
-- `int` reads what `str` writes.
use mathlib.Core.List.{reverse, reverse-cons, reverse-reverse}
use Prim.Native.Nat.{ℕ, zero, suc, ◌+◌, ◌*◌, ◌/◌, ◌%◌, ◌<◌, ◌≤◌}
use mathlib.Core.List.{[], ◌∷◌, ◌++◌}
use mathlib.Core.Path.{◌≡◌, refl, ap, ◌∙◌, sym, subst}
use mathlib.Core.Logic.{inl, inr}
use mathlib.Core.Bool.{Bool, true, false}
use mathlib.Core.Option.{Option, none, some}
use native.Mathlib.Omega.{arith}
use bootchart.Prelude.Tests.{Bool-cases, ltb, ◌==◌}
use bootchart.Prelude.Strings.{Text}
use bootchart.Prelude.Int.{pos}
use bootchart.Prelude.Words.{
  is_space, drop_while, strip_of, strip, is_digit, int_digits, int_sign, int,
}
use bootchart.Prelude.Decimal.{digit, digits_before, str}

-- A text of digits.
abbrev pub AllDigits : Text → Type 0
AllDigits [] = Unit
AllDigits (c ∷ s) = (48 ≤ c) × (c ≤ 57) × AllDigits s

digits_before-AllDigits : (fuel n : ℕ) (s : Text) → AllDigits s → AllDigits (digits_before fuel n s)
unfolding digits_before
digits_before-AllDigits zero n s h = h
digits_before-AllDigits (suc fuel) n s h =
    let more = digits_before-AllDigits fuel (n / 10) (digit n ∷ s) (omega arith, omega arith, h) in
    elim (Bool-cases (ltb n 10)) [ inl e ↦ rw e (omega arith, omega arith, h) | inr e ↦ rw e more ]

int_digits-digit :
    (m n : ℕ) (b : Bool) (s : Text)
    → int_digits m b (digit n ∷ s) ≡ int_digits (m * 10 + n % 10) true s
unfolding int_digits is_digit
int_digits-digit m n b s =
    let test : is_digit (digit n) ≡ true = ground arith in
    rw test (ap (λ k. int_digits k true s) (omega arith))

-- The digits of `n` in front of a text are read as `n`.
int_digits-digits_before :
    (fuel n : ℕ) (b : Bool) (s : Text)
    → n < fuel
    → int_digits 0 b (digits_before fuel n s) ≡ int_digits n true s
unfolding digits_before
int_digits-digits_before zero n b s lt = absurd (omega (arith, lt))
int_digits-digits_before (suc fuel) n b s lt = elim (Bool-cases (ltb n 10)) [
  | inl e ↦
      let small : 0 * 10 + n % 10 ≡ n = ground (arith, e) in
      rw e (int_digits-digit 0 n b s ∙ ap (λ k. int_digits k true s) small)
  | inr e ↦
      let fewer : n / 10 < fuel = ground (arith, e, lt) in
      let whole : n / 10 * 10 + n % 10 ≡ n = omega arith in
      rw e (
        int_digits-digits_before fuel (n / 10) b (digit n ∷ s) fewer
        ∙ int_digits-digit (n / 10) n true s
        ∙ ap (λ k. int_digits k true s) whole)
]

digit-space : (c : ℕ) → 48 ≤ c → c ≤ 57 → is_space c ≡ false
unfolding is_space
digit-space c low high = ground arith

drop_while-AllDigits : (s : Text) → AllDigits s → drop_while is_space s ≡ s
unfolding drop_while
drop_while-AllDigits [] h = refl
drop_while-AllDigits (c ∷ s) h = rw (digit-space c h.0 h.1) refl

AllDigits-append : (s t : Text) → AllDigits s → AllDigits t → AllDigits (s ++ t)
AllDigits-append [] t h k = k
AllDigits-append (c ∷ s) t (a, b, h) k = (a, b, AllDigits-append s t h k)

AllDigits-reverse : (s : Text) → AllDigits s → AllDigits (reverse s)
AllDigits-reverse [] h = tt
AllDigits-reverse (c ∷ s) (a, b, h) =
    subst AllDigits (sym (reverse-cons c s))
      (AllDigits-append (reverse s) (c ∷ []) (AllDigits-reverse s h) (a, b, tt))

strip-AllDigits : (s : Text) → AllDigits s → strip s ≡ s
unfolding strip strip_of
strip-AllDigits s h =
    ap (λ t. reverse (drop_while is_space (reverse t))) (drop_while-AllDigits s h)
    ∙ ap reverse (drop_while-AllDigits (reverse s) (AllDigits-reverse s h))
    ∙ reverse-reverse s

-- A digit is no sign.
int_sign-digit :
    (c : ℕ) (s : Text)
    → 48 ≤ c
    → int_sign (c ∷ s) ≡ (elim (int_digits 0 false (c ∷ s)) [ none ↦ none | some n ↦ some (pos n) ])
unfolding int_sign
int_sign-digit c s low =
    let minus : (c == 45) ≡ false = ground (arith, low) in
    let plus : (c == 43) ≡ false = ground (arith, low) in rw (minus, plus) refl

-- Digits that `int_digits` reads are read by `int`.
int-AllDigits :
    (s : Text) (n : ℕ) → AllDigits s → int_digits 0 false s ≡ some n → int s ≡ some (pos n)
unfolding int int_digits
int-AllDigits [] n h read = cc
int-AllDigits (c ∷ s) n h read =
    ap int_sign (strip-AllDigits (c ∷ s) h)
    ∙ int_sign-digit c s h.0
    ∙ ap (λ (o : Option ℕ). elim o [ none ↦ none | some n ↦ some (pos n) ]) read

pub str-AllDigits : (n : ℕ) → AllDigits (str (pos n))
unfolding str
str-AllDigits n = digits_before-AllDigits (suc n) n [] tt

-- `int` reads the number that `str` has written.
pub int-str : (n : ℕ) → int (str (pos n)) ≡ some (pos n)
unfolding str int_digits
int-str n =
    int-AllDigits (str (pos n)) n (str-AllDigits n)
      (int_digits-digits_before (suc n) n false [] (omega arith))

-- A nought in front changes nothing.
pub int-nought : (n : ℕ) → int (48 ∷ str (pos n)) ≡ some (pos n)
unfolding str int_digits
int-nought n =
    int-AllDigits (48 ∷ str (pos n)) n (omega arith, omega arith, str-AllDigits n)
      (int_digits-digit 0 0 false (str (pos n))
        ∙ int_digits-digits_before (suc n) n true [] (omega arith))
