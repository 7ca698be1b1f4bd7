-- ===== src/Parse/Meminfo.antt =====
-- MemSample of samples.py and _parse_proc_meminfo_log.
pub mod Laws
use bootchart.Prelude.{
  ℕ, ◌*◌, ◌+◌, ◌-◌, Bool, true, false, Option, none, some, List, [], ◌∷◌, ◌++◌, Text, codes, leb,
  ◌==◌, ◌&&◌, if◌then◌else◌,
}
use bootchart.Prelude.Int.{ℤ}
use bootchart.Prelude.Dict.{Dict, text_key, put, contains}
use bootchart.Prelude.Results.{Result, ok, ◌>>=◌}
use bootchart.Prelude.Words.{is_space, drop_while}
use bootchart.Parse.Blocks.{TimedBlock, parse_timed_blocks}

abbrev pub used_values : List Text
used_values =
    codes "MemTotal"
    ∷ codes "MemFree"
    ∷ codes "Buffers"
    ∷ codes "Cached"
    ∷ codes "SwapTotal"
    ∷ codes "SwapFree"
    ∷ []

pub record MemSample : Type 0 where
  pub time : ℤ
  pub records : Dict Text ℕ

-- valid: no value is missing.
unfoldable pub has_all : List Text → Dict Text ℕ → Bool
has_all [] records = true
has_all (v ∷ vs) records = contains records v && has_all vs records

unfoldable pub valid : MemSample → Bool
unfolding has_all
valid s = has_all used_values s.records

-- What is left of a line behind a prefix.
unfoldable pub behind : Text → Text → Option Text
behind line [] = some line
behind [] (c ∷ t) = none
behind (d ∷ line) (c ∷ t) = if d == c then behind line t else none

-- The digits at the start of a text as a number, with what has been read before them; the digits are
-- those of ASCII.
unfoldable pub read_digits : Option ℕ → Text → Option ℕ
read_digits n [] = n
read_digits n (c ∷ s) =
    let more = read_digits (some (elim n [ none ↦ c - 48 | some m ↦ m * 10 + (c - 48) ])) s in
    if leb b'0' c && leb c b'9' then more else n

-- meminfo_re: one of the names, a colon, spaces and digits, at the start of the line.
unfoldable pub match_value : Text → List Text → Option (Text × ℕ)
unfolding behind read_digits drop_while is_space
match_value line [] = none
match_value line (v ∷ vs) = elim (behind line (v ++ codes ":")) [
  | none ↦ match_value line vs
  | some rest ↦ elim (read_digits none (drop_while is_space rest)) [
    | none ↦ match_value line vs
    | some n ↦ some (v, n)
  ]
]

unfoldable pub add_values : Dict Text ℕ → List Text → Dict Text ℕ
unfolding match_value
add_values records [] = records
add_values records (line ∷ lines) = elim (match_value line used_values) [
  | none ↦ add_values records lines
  | some (name, value) ↦ add_values (put records name value) lines
]

unfoldable pub mem_samples : List TimedBlock → List MemSample
unfolding add_values valid
mem_samples [] = []
mem_samples (b ∷ bs) =
    let sample : MemSample = record { time = b.time; records = add_values [] b.lines } in
    let rest = mem_samples bs in if valid sample then sample ∷ rest else rest

unfoldable pub parse_proc_meminfo_log : Text → Result (List MemSample)
unfolding mem_samples
parse_proc_meminfo_log text = do blocks ← parse_timed_blocks text; ok (mem_samples blocks)
