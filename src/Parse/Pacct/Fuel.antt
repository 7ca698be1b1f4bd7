-- ===== src/Parse/Pacct/Fuel.antt =====
-- The loop over an accounting file ends, under either version of Python.
use bootchart.Prelude.{
  ℕ, zero, suc, ◌≤◌, ◌<◌, ◌≡◌, refl, ◌⊎◌, inl, inr, false, Bool-cases, Option, none, some, List, [],
  ◌∷◌, length, length-drop, take, drop, ltb, arith,
}
use bootchart.Prelude.Int.{ℤ, pos}
use bootchart.Prelude.Dict.{Dict, int_key, put}
use bootchart.Prelude.Results.{Error, Result, ok, err, type_error, >>=-eq-ok}
use bootchart.Parse.Pacct.{
  Version, python2, python3, Round, invalid_version, entry, is_end, ord_read, read_le_int32,
  read_pids, read_record, read_records, parse_pacct,
}

length-drop-le : (n : ℕ) (xs : List ℕ) → length (drop n xs) ≤ length xs
length-drop-le n xs = omega (arith, length-drop n xs)

read_pids-rest :
    (v : Version) (bytes' : List ℕ) (pid ppid : ℕ) (rest : List ℕ)
    → read_pids v bytes' ≡ ok (entry pid ppid rest)
    → length rest ≤ length bytes'
unfolding read_pids
read_pids-rest v bytes' pid ppid rest h =
    let (a, ra, h1) = >>=-eq-ok (read_le_int32 v (drop 14 bytes')) _ h in
    let (b, rb, h2) = >>=-eq-ok (read_le_int32 v (drop 18 bytes')) _ h1 in
    let same : drop 62 bytes' ≡ rest = cc in
    let less : length (drop 62 bytes') ≤ length bytes' = length-drop-le 62 bytes' in rw same at less

read_record-rest :
    (v : Version) (bytes' : List ℕ) (pid ppid : ℕ) (rest : List ℕ)
    → read_record v bytes' ≡ ok (entry pid ppid rest)
    → length rest ≤ length bytes'
unfolding read_record
read_record-rest v bytes' pid ppid rest h =
    let (ver, r, h1) = >>=-eq-ok (ord_read (take 1 bytes')) _ h in
    elim (Bool-cases (ltb ver 3)) [
      | inl e ↦ cc (rw e at h1)
      | inr e ↦
          let below = read_pids-rest v (drop 1 bytes') pid ppid rest (rw e at h1) in
          omega (arith, below, length-drop-le 1 bytes')
    ]

Round-cases :
    (r : Result Round)
    → ((e : Error) × (r ≡ err e))
      ⊎ ((r ≡ ok invalid_version)
          ⊎ ((pid ppid : ℕ) × (rest : List ℕ) × (r ≡ ok (entry pid ppid rest))))
Round-cases (err e) = inl (e, refl)
Round-cases (ok invalid_version) = inr (inl refl)
Round-cases (ok (entry pid ppid rest)) = inr (inr (pid, ppid, rest, refl))

is_end-cons : (v : Version) (b : ℕ) (bs : List ℕ) → is_end v (b ∷ bs) ≡ false
unfolding is_end
is_end-cons python2 b bs = refl
is_end-cons python3 b bs = refl

abbrev Returns : Option (Result (Option (Dict ℤ ℤ))) → Type 0
Returns o = (r : Result (Option (Dict ℤ ℤ))) × (o ≡ some r)

-- One more round of fuel than bytes is enough: every round reads a byte, or raises behind the last one.
read_records-Returns :
    (v : Version) (fuel : ℕ) (parent_map : Dict ℤ ℤ) (bytes' : List ℕ)
    → length bytes' < fuel
    → Returns (read_records v fuel parent_map bytes')
unfolding read_records is_end
read_records-Returns v zero parent_map bytes' lt = absurd (omega (arith, lt))
read_records-Returns python2 (suc fuel) parent_map [] lt = (ok (some parent_map), refl)
read_records-Returns python3 (suc fuel) parent_map [] lt = (err type_error, refl)
read_records-Returns v (suc fuel) parent_map (b ∷ bs) lt = elim (Round-cases (read_record v bs)) [
  | inl (e, h) ↦ (err e, rw (read_records, is_end-cons v b bs, h) refl)
  | inr (inl h) ↦ (ok none, rw (read_records, is_end-cons v b bs, h) refl)
  | inr (inr (pid, ppid, rest, h)) ↦
      let less = read_record-rest v bs pid ppid rest h in
      rw (read_records, is_end-cons v b bs, h)
        (read_records-Returns v fuel (put parent_map (pos pid) (pos ppid)) rest
          (omega (arith, less, lt)))
]

parse_pacct-Returns : (v : Version) (bytes' : List ℕ) → Returns (parse_pacct v bytes')
unfolding parse_pacct
parse_pacct-Returns v bytes' =
    read_records-Returns v (suc (length bytes')) ((pos 0, pos 0) ∷ []) bytes' (omega arith)
