-- ===== src/Parse/Maps.antt =====
-- The logs that are read into a map: headers, paternity and command lines.
pub mod Laws
pub mod RoundTrip
use bootchart.Prelude.{
  ℕ, zero, suc, ◌*◌, ◌+◌, ◌-◌, Bool, true, false, Option, none, some, List, [], ◌∷◌, ◌++◌, Text,
  codes, leb, ◌==◌, ◌&&◌, if◌then◌else◌,
}
use bootchart.Prelude.Int.{ℤ, pos, negsuc}
use bootchart.Prelude.Dict.{Dict, int_key, text_key, get, put}
use bootchart.Prelude.Results.{Result, ok, value_error, or_raise, fold_results, ◌>>=◌}
use bootchart.Prelude.Words.{split_on, split_double, strip, drop_while, has_char, int}
use bootchart.Trace.Compile.{CmdLine}
use bootchart.Parse.Meminfo.{read_digits}

-- line.split('=', 1), if there is a '='
unfoldable pub split_first : ℕ → Text → Option (Text × Text)
split_first c [] = none
split_first c (d ∷ s) =
    let later : Option (Text × Text) = elim (split_first c s) [
      | none ↦ none
      | some (a, b) ↦ some (d ∷ a, b)
    ] in
    if d == c then some ([], s) else later

-- `headers[last] += value`, for a dictionary of empty strings.
unfoldable pub append_value : Dict Text Text → Text → Text → Dict Text Text
append_value headers last value = elim (get headers last) [
  | none ↦ put headers last value
  | some old ↦ put headers last (old ++ value)
]

-- The inner `parse` of _parse_headers.
unfoldable pub add_header : Dict Text Text × Text → Text → Dict Text Text × Text
unfolding split_first append_value
add_header (headers, last) line = elim (split_first b'=' line) [
  | none ↦ (append_value headers last (strip line), last)
  | some (name, value) ↦ (append_value headers (strip name) (strip value), strip name)
]

unfoldable pub add_headers : Dict Text Text × Text → List Text → Dict Text Text × Text
unfolding add_header
add_headers acc [] = acc
add_headers acc (line ∷ lines) = add_headers (add_header acc line) lines

unfoldable pub parse_headers : Text → Dict Text Text
unfolding add_headers
parse_headers text = (add_headers ([], []) (split_on b'\n' text)).0

-- max (n, 1)
unfoldable pub at_least_one : ℤ → ℕ
at_least_one (pos zero) = 1
at_least_one (pos (suc n)) = suc n
at_least_one (negsuc n) = 1

-- The number that a text starts with, if a ')' is behind it.
unfoldable pub number_in_parens : Option ℕ → Text → Option ℕ
number_in_parens n [] = none
number_in_parens n (c ∷ s) =
    let more = number_in_parens (some (elim n [ none ↦ c - 48 | some m ↦ m * 10 + (c - 48) ])) s in
    if leb b'0' c && leb c b'9' then more else if c == b')' then n else none

-- re.match(".*\\((\\d+)\\)", s): the last number in parentheses of the first line.
unfoldable pub last_number : Text → Option ℕ
unfolding number_in_parens
last_number [] = none
last_number (c ∷ s) =
    let later = last_number s in
    let here = if c == b'(' then number_in_parens none s else none in
    if c == b'\n' then none else elim later [ none ↦ here | some n ↦ some n ]

-- `headers.get("system.cpu")` and the match.
unfoldable pub num_cpus_of_model : Option Text → ℕ
unfolding last_number at_least_one
num_cpus_of_model none = 1
num_cpus_of_model (some model) = elim (last_number model) [
  | none ↦ 1
  | some n ↦ at_least_one (pos n)
]

unfoldable pub num_cpus_of : Dict Text Text → Option Text → Result ℕ
unfolding at_least_one num_cpus_of_model
num_cpus_of headers (some (c ∷ s)) = do n ← or_raise value_error (int (c ∷ s)); ok (at_least_one n)
num_cpus_of headers _ = ok (num_cpus_of_model (get headers (codes "system.cpu")))

-- An empty "system.cpu.num" counts as a missing one.
unfoldable pub get_num_cpus : Option (Dict Text Text) → Result ℕ
unfolding num_cpus_of
get_num_cpus none = ok 1
get_num_cpus (some headers) = num_cpus_of headers (get headers (codes "system.cpu.num"))

-- One line of the paternity log; an odd one is passed over (with a message).
unfoldable pub add_parent : Dict ℤ ℤ → List Text → Result (Dict ℤ ℤ)
add_parent parent_map (child ∷ parent ∷ rest) = do
  ppid ← or_raise value_error (int parent)
  pid ← or_raise value_error (int child)
  ok (put parent_map pid ppid)
add_parent parent_map _ = ok parent_map

unfoldable pub add_parent_line : Dict ℤ ℤ → Text → Result (Dict ℤ ℤ)
unfolding add_parent
add_parent_line parent_map [] = ok parent_map
add_parent_line parent_map (c ∷ s) = add_parent parent_map (split_on b' ' (c ∷ s))

unfoldable pub parse_paternity_log : Text → Result (Dict ℤ ℤ)
unfolding add_parent_line
parse_paternity_log text = fold_results add_parent_line ((pos 0, pos 0) ∷ []) (split_on b'\n' text)

-- args.pop(), without the element.
unfoldable pub drop_last : List Text → List Text
drop_last [] = []
drop_last (a ∷ []) = []
drop_last (a ∷ b ∷ rest) = a ∷ drop_last (b ∷ rest)

unfoldable pub add_cmdline : Dict ℤ CmdLine → List Text → Result (Dict ℤ CmdLine)
unfolding drop_last
add_cmdline cmd_lines (a ∷ b ∷ c ∷ rest) = do
  pid ← or_raise value_error (int a)
  ok (
      put cmd_lines pid (record {
        exe = drop_while (has_char (codes ":")) b;
        args = drop_last (split_on 0 (drop_while (has_char (codes ":")) c));
      }))
add_cmdline cmd_lines _ = ok cmd_lines

unfoldable pub add_cmdline_block : Dict ℤ CmdLine → Text → Result (Dict ℤ CmdLine)
unfolding add_cmdline
add_cmdline_block cmd_lines block = add_cmdline cmd_lines (split_on b'\n' block)

unfoldable pub parse_cmdline_log : Text → Result (Dict ℤ CmdLine)
unfolding add_cmdline_block
parse_cmdline_log text = fold_results add_cmdline_block [] (split_double b'\n' text)
