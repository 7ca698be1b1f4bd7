-- ===== src/Draw/Header/Laws.antt =====
-- The header says the duration, and ends where the layout goes on.
use bootchart.Prelude.{
  branches, ℕ, ◌+◌, ◌*◌, ◌/◌, ◌%◌, ◌≤◌, ◌≡◌, refl, sym, ap, ◌∙◌, false, arith, Option, none, some,
  List, [], ◌∷◌, ◌++◌, append-nil, append_assoc, length, ◌==◌, Text, codes, ltb, ◌>>=◌,
}
use bootchart.Prelude.Int.{ℤ, pos, ◌+ℤ◌, ◌*ℤ◌}
use bootchart.Prelude.Dict.{Dict, get, text_key}
use bootchart.Prelude.Words.{split_on, int}
use bootchart.Prelude.Decimal.Laws.{AllDigits, str-AllDigits, int-str, int-nought}
use bootchart.Prelude.Decimal.Splits.{
  IsWithout, IsWithout-append, split_on-append, split_on-single, digits-IsWithout,
}
use bootchart.Prelude.Products.{mul_pos, add_pos}
use bootchart.Draw.Header.{
  Line, two_digits, time_text, with_maxpid, last_line, texts_of, lines_from, value_of, draw_header,
}
use bootchart.Draw.Layout as Layout

-- Minutes, seconds and hundredths, read from `m:s.c`.
unfoldable read_pieces : Text → List Text → Option ℤ
read_pieces m (s ∷ c ∷ []) = do
  minutes ← int m
  seconds ← int s
  hundredths ← int c
  some (minutes *ℤ pos 6000 +ℤ seconds *ℤ pos 100 +ℤ hundredths)
read_pieces m _ = none

unfoldable read_clock : List Text → Option ℤ
unfolding read_pieces
read_clock (m ∷ time ∷ []) = read_pieces m (split_on b'.' time)
read_clock _ = none

unfoldable pub read_time : Text → Option ℤ
unfolding read_clock
read_time text = read_clock (split_on b':' text)

two_digits-AllDigits : (n : ℕ) → AllDigits (two_digits n)
unfolding two_digits
two_digits-AllDigits n =
    branches AllDigits (ltb n 10) (λ e. (omega arith, omega arith, str-AllDigits n))
      (λ e. str-AllDigits n)

int-two_digits : (n : ℕ) → int (two_digits n) ≡ some (pos n)
unfolding two_digits
int-two_digits n =
    branches (λ s. int s ≡ some (pos n)) (ltb n 10) (λ e. int-nought n) (λ e. int-str n)

no_point : (x : ℕ) → 48 ≤ x → x ≤ 57 → (x == 46) ≡ false
no_point x h k = ground arith

no_colon : (x : ℕ) → 48 ≤ x → x ≤ 57 → (x == 58) ≡ false
no_colon x h k = ground arith

split_on-seconds_text :
    (s c : ℕ) → split_on 46 (two_digits s ++ (46 ∷ two_digits c)) ≡ two_digits s ∷ two_digits c ∷ []
split_on-seconds_text s c =
    split_on-append 46 (two_digits s) (two_digits c)
      (digits-IsWithout 46 (two_digits s) no_point (two_digits-AllDigits s))
    ∙ ap (◌∷◌ (two_digits s)) (
        split_on-single 46 (two_digits c)
          (digits-IsWithout 46 (two_digits c) no_point (two_digits-AllDigits c)))

split_on-time :
    (m s c : ℕ)
    → split_on 58 (two_digits m ++ (58 ∷ (two_digits s ++ (46 ∷ two_digits c))))
      ≡ two_digits m ∷ (two_digits s ++ (46 ∷ two_digits c)) ∷ []
split_on-time m s c =
    let digits : (n : ℕ) → IsWithout 58 (two_digits n) =
      λ n. digits-IsWithout 58 (two_digits n) no_colon (two_digits-AllDigits n) in
    split_on-append 58 (two_digits m) (two_digits s ++ (46 ∷ two_digits c)) (digits m)
    ∙ ap (◌∷◌ (two_digits m)) (
        split_on-single 58 (two_digits s ++ (46 ∷ two_digits c))
          (IsWithout-append 58 (two_digits s) (46 ∷ two_digits c) (digits s) (refl, digits c)))

read_pieces-digits :
    (m s c : ℕ)
    → read_pieces (two_digits m) (two_digits s ∷ two_digits c ∷ [])
      ≡ some (pos m *ℤ pos 6000 +ℤ pos s *ℤ pos 100 +ℤ pos c)
unfolding read_pieces
read_pieces-digits m s c = rw (int-two_digits m, int-two_digits s, int-two_digits c) refl

-- The text of a time is read back.
pub read_time-time_text : (duration : ℕ) → read_time (time_text duration) ≡ some (pos duration)
unfolding read_time time_text
read_time-time_text duration =
    let m : ℕ = duration / 6000 in
    let s : ℕ = duration % 6000 / 100 in
    let c : ℕ = duration % 6000 % 100 in
    let sum : m * 6000 + s * 100 + c ≡ duration = omega arith in
    let total : pos m *ℤ pos 6000 +ℤ pos s *ℤ pos 100 +ℤ pos c ≡ pos duration =
      rw
        (
          mul_pos m 6000,
          mul_pos s 100,
          add_pos (m * 6000) (s * 100),
          add_pos (m * 6000 + s * 100) c,
        )
        (ap pos sum) in
    ap read_clock (split_on-time m s c)
    ∙ ap (read_pieces (two_digits m)) (split_on-seconds_text s c)
    ∙ read_pieces-digits m s c
    ∙ ap some total

with_maxpid-time :
    (prefix time : Text) (maxpid : Option Text)
    → (tail : Text) × (with_maxpid (prefix ++ time) maxpid ≡ prefix ++ (time ++ tail))
unfolding with_maxpid
with_maxpid-time prefix time none = ([], ap (λ t. prefix ++ t) (sym (append-nil time)))
with_maxpid-time prefix time (some maxpid) = (
  codes "      max pid: " ++ maxpid,
  append_assoc prefix time (codes "      max pid: " ++ maxpid),
)

last_line-time :
    (headers : Dict Text Text) (duration : ℕ)
    → (tail : Text) × (last_line headers duration ≡ codes "time : " ++ (time_text duration ++ tail))
unfolding last_line
last_line-time headers duration =
    with_maxpid-time (codes "time : ") (time_text duration) (get headers (codes "system.maxpid"))

-- The last of some lines, with its place.
unfoldable pub last_of : Line → List Line → Line
last_of l [] = l
last_of l (m ∷ ls) = last_of m ls

-- Whatever the headers, draw_header draws the title, which is empty where they have none, and five lines
-- below it. The last one begins with the duration, whose text is read back as it was, and stands where
-- draw_header of Draw/Layout ends.
pub draw_header-duration :
    (first_h text_h : ℕ) (headers : Dict Text Text) (duration : ℕ)
    → (first : Line) × (rest : List Line) × (tail : Text) × (draw_header first_h text_h headers
          duration
        ≡ first ∷ rest)
      × (first.text ≡ value_of headers (codes "title"))
      × (length rest ≡ 5)
      × ((last_of first rest).y ≡ Layout.draw_header first_h text_h)
      × ((last_of first rest).text ≡ codes "time : " ++ (time_text duration ++ tail))
      × (read_time (time_text duration) ≡ some (pos duration))
unfolding draw_header last_of texts_of lines_from
draw_header-duration first_h text_h headers duration =
    let (tail, text) = last_line-time headers duration in
    (
      record { text = value_of headers (codes "title"); y = first_h + 10 },
      lines_from (first_h + 10 + text_h) text_h (texts_of headers duration),
      tail,
      refl,
      refl,
      refl,
      omega arith,
      text,
      read_time-time_text duration,
    )
