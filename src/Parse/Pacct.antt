-- ===== src/Parse/Pacct.antt =====
-- _parse_pacct: the process accounting file, in records of 64 bytes. What `file.read` returns
-- depends on the version of Python: in version 2 it is text and in version 3 it is bytes, which equal
-- no text and are indexed to numbers.
pub mod RoundTrip
pub mod Bytes
mod Fuel
use bootchart.Prelude.{
  ℕ, zero, suc, ◌+◌, ◌*◌, Bool, true, false, Option, none, some, List, [], ◌∷◌, length, get_elem?,
  take, drop, ltb, if◌then◌else◌,
}
use bootchart.Prelude.Int.{ℤ, pos}
use bootchart.Prelude.Dict.{Dict, int_key, put}
use bootchart.Prelude.Results.{Result, ok, err, index_error, type_error, ◌>>=◌}

pub data Version : Type 0 where
  python2 : Version
  python3 : Version

-- `file.read(1) != ""` is false
unfoldable pub is_end : Version → List ℕ → Bool
is_end python2 [] = true
is_end python2 (b ∷ bs) = false
is_end python3 bs = false

-- `ord` of what `file.read(1)` returns
unfoldable pub ord_read : List ℕ → Result ℕ
ord_read (b ∷ []) = ok b
ord_read _ = err type_error

-- `ord(byts[i])`: in version 3 `byts[i]` is a number already, and `ord` takes none.
unfoldable pub ord_byte : Version → Option ℕ → Result ℕ
ord_byte v none = err index_error
ord_byte python2 (some b) = ok b
ord_byte python3 (some b) = err type_error

-- _read_le_int32: the `|` of shifted bytes is their sum.
unfoldable pub read_le_int32 : Version → List ℕ → Result ℕ
unfolding ord_byte
read_le_int32 v bytes' = do
  a ← ord_byte v (get_elem? (take 4 bytes') 0)
  b ← ord_byte v (get_elem? (take 4 bytes') 1)
  c ← ord_byte v (get_elem? (take 4 bytes') 2)
  d ← ord_byte v (get_elem? (take 4 bytes') 3)
  ok (a + b * 256 + c * 65536 + d * 16777216)

-- What a round of the loop does: it ends the function, or goes on with an entry and what is left.
pub data Round : Type 0 where
  invalid_version : Round
  entry : ℕ → ℕ → List ℕ → Round

-- The rest of a record behind the version: user and group, then the two pids, the timings and the
-- command.
unfoldable pub read_pids : Version → List ℕ → Result Round
unfolding read_le_int32
read_pids v bytes' = do
  pid ← read_le_int32 v (drop 14 bytes')
  ppid ← read_le_int32 v (drop 18 bytes')
  ok (entry pid ppid (drop 62 bytes'))

-- A round, from behind the flags.
unfoldable pub read_record : Version → List ℕ → Result Round
unfolding read_pids ord_read
read_record v bytes' = do
  ver ← ord_read (take 1 bytes')
  if ltb ver 3 then ok invalid_version else read_pids v (drop 1 bytes')

-- The loop, with fuel for its rounds. The function returns None for a version below 3.
unfoldable pub read_records : Version → ℕ → Dict ℤ ℤ → List ℕ → Option (Result (Option (Dict ℤ ℤ)))
unfolding read_record is_end
read_records v zero parent_map bytes' = none
read_records v (suc fuel) parent_map bytes' = elim (is_end v bytes') [
  | true ↦ some (ok (some parent_map))
  | false ↦ elim (read_record v (drop 1 bytes')) [
    | err e ↦ some (err e)
    | ok invalid_version ↦ some (ok none)
    | ok (entry pid ppid rest) ↦ read_records v fuel (put parent_map (pos pid) (pos ppid)) rest
  ]
]

-- Every round reads a byte at least, so there are no more rounds than bytes.
unfoldable pub parse_pacct : Version → List ℕ → Option (Result (Option (Dict ℤ ℤ)))
unfolding read_records
parse_pacct v bytes' = read_records v (suc (length bytes')) ((pos 0, pos 0) ∷ []) bytes'
