-- ===== src/Parse/Pacct/Bytes.antt =====
-- Under version 3 no accounting file is read.
use bootchart.Prelude.{
  ℕ, ◌≡◌, refl, ◌⊎◌, inl, inr, Bool-cases, Option, none, some, List, [], ◌∷◌, take, drop, ltb,
  get_elem?,
}
use bootchart.Prelude.Results.{Error, Result, ok, err, type_error, index_error}
use bootchart.Parse.Pacct.{
  python3, Round, invalid_version, ord_byte, ord_read, read_le_int32, read_pids, read_record,
  read_records, parse_pacct,
}

-- A result that is no entry: an exception, or the None for an old version.
abbrev NoEntry : Result Round → Type 0
NoEntry r = ((e : Error) × (r ≡ err e)) ⊎ (r ≡ ok invalid_version)

ord_byte-raises : (o : Option ℕ) → (e : Error) × (ord_byte python3 o ≡ err e)
unfolding ord_byte
ord_byte-raises none = (index_error, refl)
ord_byte-raises (some b) = (type_error, refl)

read_le_int32-raises : (bytes' : List ℕ) → (e : Error) × (read_le_int32 python3 bytes' ≡ err e)
unfolding read_le_int32
read_le_int32-raises bytes' =
    let (e, h) = ord_byte-raises (get_elem? (take 4 bytes') 0) in (e, rw (read_le_int32, h) refl)

read_pids-raises : (bytes' : List ℕ) → (e : Error) × (read_pids python3 bytes' ≡ err e)
unfolding read_pids
read_pids-raises bytes' =
    let (e, h) = read_le_int32-raises (drop 14 bytes') in (e, rw (read_pids, h) refl)

read_record-NoEntry : (bytes' : List ℕ) → NoEntry (read_record python3 bytes')
unfolding read_record ord_read
read_record-NoEntry [] = inl (type_error, refl)
read_record-NoEntry (b ∷ bs) = elim (Bool-cases (ltb b 3)) [
  | inl e ↦ inr (rw (read_record, e) refl)
  | inr e ↦ let (x, h) = read_pids-raises bs in inl (x, rw (read_record, e) h)
]

-- Whatever the file holds, under Python 3 the parser ends in an exception, or returns None for an old
-- version: it never yields a map of parents.
pub parse_pacct-raises :
    (bytes' : List ℕ)
    → ((e : Error) × (parse_pacct python3 bytes' ≡ some (err e)))
      ⊎ (parse_pacct python3 bytes' ≡ some (ok none))
unfolding parse_pacct
parse_pacct-raises bytes' = elim (read_record-NoEntry (drop 1 bytes')) [
  | inl (e, h) ↦ inl (e, rw (parse_pacct, read_records, h) refl)
  | inr h ↦ inr (rw (parse_pacct, read_records, h) refl)
]
