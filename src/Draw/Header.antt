-- ===== src/Draw/Header.antt =====
-- draw_header of draw.py: the texts above the charts, with their places. The heights of a line in the
-- two fonts are arguments.
pub mod Laws
use bootchart.Prelude.{
  ℕ, ◌+◌, ◌/◌, ◌%◌, ◌==◌, Bool, Option, none, some, List, [], ◌∷◌, ◌++◌, drop, Text, codes, ltb,
  if◌then◌else◌,
}
use bootchart.Prelude.Int.{ℤ, pos}
use bootchart.Prelude.Dict.{Dict, get, text_key}
use bootchart.Prelude.Words.{drop_while, is_space, starts_with}
use bootchart.Prelude.Decimal.{str}

-- A text on a line.
pub record Line : Type 0 where
  pub text : Text
  pub y : ℕ

-- '\s*:\s*' at the start of a text: what is behind it
unfoldable behind_colon : Text → Option Text
unfolding drop_while is_space
behind_colon s = elim (drop_while is_space s) [
  | [] ↦ none
  | c ∷ rest ↦ if c == b':' then some (drop_while is_space rest) else none
]

-- re.sub('model name\s*:\s*', '', s, 1)
unfoldable pub without_model_name : Text → Text
unfolding behind_colon starts_with
without_model_name [] = []
without_model_name (c ∷ s) =
    let later : Text = c ∷ without_model_name s in
    if starts_with (c ∷ s) (codes "model name")
    then (elim (behind_colon (drop 10 (c ∷ s))) [ none ↦ later | some rest ↦ rest ])
    else later

-- '%02d'
unfoldable pub two_digits : ℕ → Text
unfolding str
two_digits n = if ltb n 10 then b'0' ∷ str (pos n) else str (pos n)

-- '%02d:%05.2f' of the minutes and the seconds of a time in hundredths of a second
unfoldable pub time_text : ℕ → Text
unfolding two_digits
time_text duration =
    let rest : ℕ = duration % 6000 in
    two_digits (duration / 6000)
    ++ (b':' ∷ (two_digits (rest / 100) ++ (b'.' ∷ two_digits (rest % 100))))

-- headers.get(key), or nothing
abbrev pub value_of : Dict Text Text → Text → Text
value_of headers key = elim (get headers key) [ none ↦ [] | some value ↦ value ]

abbrev titled : Text → Text → Text
titled title value = title ++ codes ": " ++ value

-- The text of the last line, with the greatest pid if the headers have it.
unfoldable pub with_maxpid : Text → Option Text → Text
with_maxpid time none = time
with_maxpid time (some maxpid) = time ++ (codes "      max pid: " ++ maxpid)

unfoldable pub last_line : Dict Text Text → ℕ → Text
unfolding time_text with_maxpid
last_line headers duration =
    with_maxpid (codes "time : " ++ time_text duration) (get headers (codes "system.maxpid"))

-- One text below the other.
unfoldable pub lines_from : ℕ → ℕ → List Text → List Line
lines_from y text_h [] = []
lines_from y text_h (t ∷ ts) = record { text = t; y = y } ∷ lines_from (y + text_h) text_h ts

-- The texts below the title.
unfoldable pub texts_of : Dict Text Text → ℕ → List Text
unfolding without_model_name last_line
texts_of headers duration =
    titled (codes "uname") (value_of headers (codes "system.uname"))
    ∷ titled (codes "release") (value_of headers (codes "system.release"))
    ∷ titled (codes "CPU") (without_model_name (value_of headers (codes "system.cpu")))
    ∷ titled (codes "kernel options") (value_of headers (codes "system.kernel.options"))
    ∷ last_line headers duration
    ∷ []

-- draw_header; the headers are a defaultdict of texts, so that a missing title is empty.
unfoldable pub draw_header : ℕ → ℕ → Dict Text Text → ℕ → List Line
unfolding texts_of lines_from
draw_header first_h text_h headers duration =
    record { text = value_of headers (codes "title"); y = first_h + 10 }
    ∷ lines_from (first_h + 10 + text_h) text_h (texts_of headers duration)
