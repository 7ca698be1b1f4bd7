-- ===== src/Parse/Blocks.antt =====
-- The timed blocks of a log: a timestamp on a line by itself, then lines of data, up to an empty
-- line. A file is given decoded, as one text or as its lines.
pub mod Laws
use mathlib.Core.List.{reverse, reverse-reverse}
use bootchart.Prelude.{
  ℕ, ◌≡◌, refl, ◌∙◌, ap, inl, inr, Bool, true, false, not, ◌&&◌, Option, none, some, List, [], ◌∷◌,
  ◌++◌, Text, codes, text_eq, if◌then◌else◌, Bool-cases, arith,
}
use bootchart.Prelude.Int.{ℤ}
use bootchart.Prelude.Results.{Result, ok, err, parse_error, ◌>>=◌}
use bootchart.Prelude.Words.{
  is_space, drop_while, strip_of, strip, split_on, split_double, starts_with, ends_with, int,
}

pub record TimedBlock : Type 0 where
  pub time : ℤ
  pub lines : List Text

-- The inner `parse`, on the lines of a block.
unfoldable pub parse_block : List Text → Result TimedBlock
parse_block [] = err parse_error
parse_block (first ∷ rest) = elim (int first) [
  | none ↦ err parse_error
  | some time ↦ ok (record { time = time; lines = rest })
]

unfoldable pub parse_blocks : List (List Text) → Result (List TimedBlock)
unfolding parse_block
parse_blocks [] = ok []
parse_blocks (b ∷ bs) = do block ← parse_block b; blocks ← parse_blocks bs; ok (block ∷ blocks)

abbrev pub not_running : Text
not_running = codes " not running\n"

unfoldable pub is_empty : Text → Bool
is_empty [] = true
is_empty (c ∷ s) = false

-- `if block.strip() and not block.endswith(' not running\n')`
unfoldable pub is_block : Text → Bool
unfolding is_empty
is_block block = not (is_empty (strip block)) && not (ends_with block not_running)

unfoldable pub select_blocks : List Text → List (List Text)
unfolding is_block
select_blocks [] = []
select_blocks (b ∷ bs) =
    let rest = select_blocks bs in if is_block b then split_on b'\n' b ∷ rest else rest

-- _parse_timed_blocks
unfoldable pub parse_timed_blocks : Text → Result (List TimedBlock)
unfolding select_blocks parse_blocks
parse_timed_blocks data' = parse_blocks (select_blocks (split_double b'\n' data'))

-- The `while block:` of _iter_parse_timed_blocks: the stripped lines up to an empty line are a block,
-- and the first block with no line ends the loop.
unfoldable pub close_block : List Text → List (List Text) → List (List Text)
close_block [] later = []
close_block (s ∷ ss) later = (s ∷ ss) ∷ later

unfoldable pub read_blocks : List Text → List Text → List (List Text)
unfolding close_block
read_blocks block [] = close_block block []
read_blocks block (line ∷ lines) =
    let over = read_blocks [] lines in
    let on = read_blocks (block ++ strip line ∷ []) lines in
    if text_eq line (codes "\n") then close_block block over else on

-- `block[-1].endswith(" not running\n")`
unfoldable pub ends_not_running : List Text → Bool
ends_not_running [] = false
ends_not_running (s ∷ []) = ends_with s not_running
ends_not_running (s ∷ t ∷ ts) = ends_not_running (t ∷ ts)

unfoldable pub drop_not_running : List (List Text) → List (List Text)
unfolding ends_not_running
drop_not_running [] = []
drop_not_running (b ∷ bs) =
    let rest = drop_not_running bs in if ends_not_running b then rest else b ∷ rest

-- _iter_parse_timed_blocks, on the lines of the file, each with its newline. The blocks come one by
-- one there; here they are all read before the first is used.
unfoldable pub iter_parse_timed_blocks : List Text → Result (List TimedBlock)
unfolding read_blocks drop_not_running parse_blocks
iter_parse_timed_blocks lines = parse_blocks (drop_not_running (read_blocks [] lines))
