-- ===== src/Prelude/Words.antt =====
-- The string methods of Python that the parsers call, on texts.
use bootchart.Prelude.{
  ℕ, ◌+◌, ◌-◌, ◌*◌, ◌≡◌, ◌≢◌, refl, sym, ap, ap₂, ==_iff, ◌∙◌, inl, inr, Bool, true, false, ◌&&◌,
  ◌||◌, Option, none, some, List, [], ◌∷◌, ◌++◌, Text, codes, leb, ◌==◌, if◌then◌else◌, Bool-cases,
}
use mathlib.Core.List.{reverse}
use bootchart.Prelude.Int.{ℤ, pos, ◌-ℤ◌}

-- str.isspace of one character
unfoldable pub is_space : ℕ → Bool
is_space c =
    (leb 9 c && leb c 13)
    || (leb 28 c && leb c 32)
    || (c == 0x85)
    || (c == 0xa0)
    || (c == 0x1680)
    || (leb 0x2000 c && leb c 0x200a)
    || (c == 0x2028)
    || (c == 0x2029)
    || (c == 0x202f)
    || (c == 0x205f)
    || (c == 0x3000)

unfoldable pub drop_while : (ℕ → Bool) → Text → Text
drop_while p [] = []
drop_while p (c ∷ s) = let rest = drop_while p s in if p c then rest else c ∷ s

-- s.strip() for `is_space`, s.strip(chars) for membership in `chars`
unfoldable pub strip_of : (ℕ → Bool) → Text → Text
unfolding drop_while
strip_of p s = reverse (drop_while p (reverse (drop_while p s)))

unfoldable pub strip : Text → Text
unfolding strip_of is_space
strip s = strip_of is_space s

-- c in chars
unfoldable pub has_char : Text → ℕ → Bool
has_char [] c = false
has_char (d ∷ s) c = (c == d) || has_char s c

-- Put a character in front of the first piece.
abbrev pub cons_head : ℕ → List Text → List Text
cons_head c [] = (c ∷ []) ∷ []
cons_head c (w ∷ ws) = (c ∷ w) ∷ ws

-- s.split(c): one piece more than there are separators
unfoldable pub split_on : ℕ → Text → List Text
split_on c [] = [] ∷ []
split_on c (x ∷ s) = if x == c then [] ∷ split_on c s else cons_head x (split_on c s)

-- s.split(cc), the separator being one character twice
unfoldable pub split_double : ℕ → Text → List Text
split_double c [] = [] ∷ []
split_double c (x ∷ []) = (x ∷ []) ∷ []
split_double c (x ∷ y ∷ s) =
    let here = [] ∷ split_double c s in
    let on = cons_head x (split_double c (y ∷ s)) in if (x == c) && (y == c) then here else on

-- c.join(pieces)
unfoldable pub join : Text → List Text → Text
join c [] = []
join c (w ∷ []) = w
join c (w ∷ v ∷ ws) = w ++ (c ++ join c (v ∷ ws))

-- s.split(): the runs of characters that are not spaces
unfoldable pub words_from : Text → Text → List Text
words_from cur [] = elim cur [ [] ↦ [] | c ∷ r ↦ reverse (c ∷ r) ∷ [] ]
words_from cur (c ∷ s) =
    let over = words_from [] s in
    let on = words_from (c ∷ cur) s in
    if is_space c then elim cur [ [] ↦ over | d ∷ r ↦ reverse (d ∷ r) ∷ over ] else on

unfoldable pub split_words : Text → List Text
unfolding words_from is_space
split_words s = words_from [] s

unfoldable pub starts_with : Text → Text → Bool
starts_with s [] = true
starts_with [] (c ∷ t) = false
starts_with (d ∷ s) (c ∷ t) = (d == c) && starts_with s t

-- s.endswith(t)
unfoldable pub ends_with : Text → Text → Bool
unfolding starts_with
ends_with s t = starts_with (reverse s) (reverse t)

unfoldable pub is_digit : ℕ → Bool
is_digit c = leb b'0' c && leb c b'9'

-- The digits of `int`; an underscore may stand between two digits.
unfoldable pub int_digits : ℕ → Bool → Text → Option ℕ
int_digits n after_digit [] = if after_digit then some n else none
int_digits n after_digit (c ∷ s) =
    let digit = int_digits (n * 10 + (c - 48)) true s in
    let underscore = int_digits n false s in
    if is_digit c then digit else if (c == b'_') && after_digit then underscore else none

unfoldable pub int_sign : Text → Option ℤ
int_sign [] = none
int_sign (c ∷ s) =
    if c == b'-'
    then elim (int_digits 0 false s) [ none ↦ none | some n ↦ some (pos 0 -ℤ pos n) ]
    else if c == b'+'
    then elim (int_digits 0 false s) [ none ↦ none | some n ↦ some (pos n) ]
    else elim (int_digits 0 false (c ∷ s)) [ none ↦ none | some n ↦ some (pos n) ]

-- int(s), `none` for a ValueError; the digits are those of ASCII.
unfoldable pub int : Text → Option ℤ
unfolding int_sign int_digits is_digit strip ◌-ℤ◌
int s = int_sign (strip s)

join-cons_head : (c x : ℕ) (ws : List Text) → join (c ∷ []) (cons_head x ws) ≡ x ∷ join (c ∷ []) ws
unfolding join
join-cons_head c x [] = refl
join-cons_head c x (w ∷ []) = refl
join-cons_head c x (w ∷ v ∷ ws) = refl

join-nil_head : (c : ℕ) (ws : List Text) → ws ≢ [] → join (c ∷ []) ([] ∷ ws) ≡ c ∷ join (c ∷ []) ws
unfolding join
join-nil_head c [] h = absurd (h refl)
join-nil_head c (w ∷ ws) h = refl

cons_head-ne-nil : (x : ℕ) (ws : List Text) → cons_head x ws ≢ []
cons_head-ne-nil x [] h = cc
cons_head-ne-nil x (w ∷ ws) h = cc

split_on-ne-nil : (c : ℕ) (s : Text) → split_on c s ≢ []
unfolding split_on
split_on-ne-nil c [] h = cc
split_on-ne-nil c (x ∷ s) h = elim (Bool-cases (x == c)) [
  | inl e ↦ cc (rw e at h)
  | inr e ↦ cons_head-ne-nil x (split_on c s) (rw e at h)
]

-- The pieces of a split, joined by the separator, give the text back.
pub join-split_on : (c : ℕ) (s : Text) → join (c ∷ []) (split_on c s) ≡ s
unfolding split_on join
join-split_on c [] = refl
join-split_on c (x ∷ s) = elim (Bool-cases (x == c)) [
  | inl e ↦ rw e (
      join-nil_head c (split_on c s) (split_on-ne-nil c s)
      ∙ ap₂ ◌∷◌ (sym ((==_iff x c).0 e)) (join-split_on c s))
  | inr e ↦ rw e (join-cons_head c x (split_on c s) ∙ ap (◌∷◌ x) (join-split_on c s))
]

int_examples :
    (int (codes " 12\n") ≡ some (pos 12))
    × (int (codes "-1_000") ≡ some (pos 0 -ℤ pos 1000))
    × (int (codes "1__0") ≡ none)
    × (int (codes "") ≡ none)
    × (split_words (codes " a  bc ") ≡ codes "a" ∷ codes "bc" ∷ [])
unfolding int split_words ◌-ℤ◌
int_examples = (refl, refl, refl, refl, refl)
