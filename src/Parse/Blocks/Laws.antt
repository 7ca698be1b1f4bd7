-- ===== src/Parse/Blocks/Laws.antt =====
-- The filter of _iter_parse_timed_blocks.
use mathlib.Core.List.{reverse, reverse-reverse}
use bootchart.Prelude.{
  ℕ, ◌≡◌, refl, ap, ◌∙◌, inl, inr, true, false, List, [], ◌∷◌, ◌++◌, Text, codes, ◌==◌, ==_iff,
  text_eq, Bool-cases,
}
use bootchart.Prelude.Words.{is_space, drop_while, strip, starts_with, ends_with}
use bootchart.Parse.Blocks.{
  parse_blocks, not_running, close_block, read_blocks, ends_not_running, drop_not_running,
  iter_parse_timed_blocks,
}

-- What is left of a text without its leading spaces starts with no space.
starts_with-drop_while :
    (c : ℕ) (s t : Text) → is_space c ≡ true → starts_with (drop_while is_space s) (c ∷ t) ≡ false
unfolding starts_with drop_while
starts_with-drop_while c [] t h = refl
starts_with-drop_while c (d ∷ s) t h = elim (Bool-cases (is_space d)) [
  | inl e ↦ rw e (starts_with-drop_while c s t h)
  | inr e ↦ rw e (elim (Bool-cases (d == c)) [
    | inl b ↦ cc (h, e, ap is_space ((==_iff d c).0 b))
    | inr b ↦ rw b refl
  ])
]

space_newline : is_space b'\n' ≡ true
unfolding is_space
space_newline = refl

-- A stripped line ends in no newline.
ends_with-strip : (line : Text) → ends_with (strip line) not_running ≡ false
unfolding ends_with strip
ends_with-strip line =
    let tail : Text = reverse (drop_while is_space line) in
    ap (λ s. starts_with s (reverse not_running)) (reverse-reverse (drop_while is_space tail))
    ∙ starts_with-drop_while b'\n' tail (reverse (codes " not running")) space_newline

-- All lines of a block are stripped.
abbrev AllStripped : List Text → Type 0
AllStripped [] = Unit
AllStripped (s ∷ ss) = (ends_with s not_running ≡ false) × AllStripped ss

abbrev AllBlocksStripped : List (List Text) → Type 0
AllBlocksStripped [] = Unit
AllBlocksStripped (b ∷ bs) = AllStripped b × AllBlocksStripped bs

AllStripped-append :
    (ss : List Text) (line : Text) → AllStripped ss → AllStripped (ss ++ strip line ∷ [])
AllStripped-append [] line h = (ends_with-strip line, tt)
AllStripped-append (s ∷ ss) line h = (h.0, AllStripped-append ss line h.1)

-- The block before an empty line, and the blocks behind it.
read_stop :
    (block lines : List Text)
    → AllStripped block
    → AllBlocksStripped (read_blocks [] lines)
    → AllBlocksStripped (close_block block (read_blocks [] lines))
unfolding close_block
read_stop [] lines h k = tt
read_stop (s ∷ ss) lines h k = (h, k)

read_blocks-AllStripped :
    (block lines : List Text) → AllStripped block → AllBlocksStripped (read_blocks block lines)
unfolding read_blocks
read_blocks-AllStripped [] [] h = tt
read_blocks-AllStripped (s ∷ ss) [] h = (h, tt)
read_blocks-AllStripped block (line ∷ lines) h = elim (Bool-cases (text_eq line (codes "\n"))) [
  | inl e ↦ rw e (read_stop block lines h (read_blocks-AllStripped [] lines tt))
  | inr e ↦
      rw e
        (read_blocks-AllStripped (block ++ strip line ∷ []) lines (AllStripped-append block line h))
]

ends_not_running-AllStripped : (b : List Text) → AllStripped b → ends_not_running b ≡ false
unfolding ends_not_running
ends_not_running-AllStripped [] h = refl
ends_not_running-AllStripped (s ∷ []) h = h.0
ends_not_running-AllStripped (s ∷ t ∷ ts) h = ends_not_running-AllStripped (t ∷ ts) h.1

drop_not_running-AllBlocksStripped :
    (bs : List (List Text)) → AllBlocksStripped bs → drop_not_running bs ≡ bs
unfolding drop_not_running
drop_not_running-AllBlocksStripped [] h = refl
drop_not_running-AllBlocksStripped (b ∷ bs) h =
    rw (ends_not_running-AllStripped b h.0) (ap (◌∷◌ b) (drop_not_running-AllBlocksStripped bs h.1))

-- The filter of _iter_parse_timed_blocks drops nothing, whatever the file: the lines that it looks at
-- have lost their newline. A block that ends in " not running" is parsed like any other.
pub iter_parse_timed_blocks_unfiltered :
    (lines : List Text) → iter_parse_timed_blocks lines ≡ parse_blocks (read_blocks [] lines)
unfolding iter_parse_timed_blocks
iter_parse_timed_blocks_unfiltered lines = ap parse_blocks (
    drop_not_running-AllBlocksStripped (read_blocks [] lines) (read_blocks-AllStripped [] lines tt))
