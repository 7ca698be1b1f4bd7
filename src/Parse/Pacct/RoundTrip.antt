-- ===== src/Parse/Pacct/RoundTrip.antt =====
-- Reading back an accounting file that holds given records, under Python 2.
use bootchart.Prelude.{
  ℕ, zero, suc, ◌/◌, ◌%◌, ◌<◌, ◌≤◌, ◌≡◌, refl, sym, ap, ◌∙◌, false, some, List, [], ◌∷◌, ◌++◌,
  length, length-append, drop, ltb, append_assoc, arith,
}
use bootchart.Prelude.Int.{ℤ, pos}
use bootchart.Prelude.Dict.{Dict, int_key, put}
use bootchart.Prelude.Results.{Result, ok, ◌>>=◌}
use bootchart.Parse.Pacct.{
  python2, Round, entry, read_le_int32, ord_byte, ord_read, read_pids, read_record, read_records,
  is_end, parse_pacct,
}

-- A record of acct.h, version 3, as its fields that are read and the bytes between them.
pub record AcctRecord : Type 0 where
  pub flag : ℕ
  pub version : ℕ
  pub user : List ℕ
  pub pid : ℕ
  pub ppid : ℕ
  pub timings : List ℕ

pub record IsAcct (r : AcctRecord) : Type 0 where
  pub version : 3 ≤ r.version
  pub user : length r.user ≡ 14
  pub pid : r.pid < 4294967296
  pub ppid : r.ppid < 4294967296
  pub timings : length r.timings ≡ 40

abbrev pub AllAcct : List AcctRecord → Type 0
AllAcct [] = Unit
AllAcct (r ∷ rs) = IsAcct r × AllAcct rs

-- A number in four bytes, the lowest first.
abbrev pub le32 : ℕ → List ℕ
le32 n = n % 256 ∷ n / 256 % 256 ∷ n / 65536 % 256 ∷ n / 16777216 ∷ []

unfoldable pub encode : AcctRecord → List ℕ
encode r = r.flag ∷ r.version ∷ (r.user ++ (le32 r.pid ++ (le32 r.ppid ++ r.timings)))

unfoldable pub encode_all : List AcctRecord → List ℕ
encode_all [] = []
encode_all (r ∷ rs) = encode r ++ encode_all rs

-- The map of parents that the records say, later ones over earlier ones.
unfoldable pub parents_of : Dict ℤ ℤ → List AcctRecord → Dict ℤ ℤ
parents_of parent_map [] = parent_map
parents_of parent_map (r ∷ rs) = parents_of (put parent_map (pos r.pid) (pos r.ppid)) rs

le→ltb_false : (a b : ℕ) → a ≤ b → ltb b a ≡ false
le→ltb_false a b h = ground arith

drop-append : (n : ℕ) (xs ys : List ℕ) → length xs ≡ n → drop n (xs ++ ys) ≡ ys
drop-append zero [] ys h = refl
drop-append zero (x ∷ xs) ys h = absurd (omega (arith, h))
drop-append (suc n) [] ys h = absurd (omega (arith, h))
drop-append (suc n) (x ∷ xs) ys h = drop-append n xs ys (omega (arith, h))

read_le_int32-le32 :
    (n : ℕ) (rest : List ℕ) → n < 4294967296 → read_le_int32 python2 (le32 n ++ rest) ≡ ok n
unfolding read_le_int32 ord_byte
read_le_int32-le32 n rest h = ap ok (omega arith)

-- The parts of a record, and where the parser finds them.
abbrev body : AcctRecord → List ℕ
body r = r.user ++ (le32 r.pid ++ (le32 r.ppid ++ r.timings))

abbrev pids_of : Result ℕ → Result ℕ → List ℕ → Result Round
pids_of a b rest = do pid ← a; ppid ← b; ok (entry pid ppid rest)

module _ (r : AcctRecord) (rest : List ℕ) (h : IsAcct r) where
  drop-pid : drop 14 (body r ++ rest) ≡ le32 r.pid ++ (le32 r.ppid ++ (r.timings ++ rest))
  drop-pid = ap (drop 14) (append_assoc r.user _ rest) ∙ drop-append 14 r.user _ h.user

  drop-ppid : drop 18 (body r ++ rest) ≡ le32 r.ppid ++ (r.timings ++ rest)
  drop-ppid =
      ap (drop 18) (append_assoc r.user _ rest ∙ sym (append_assoc r.user (le32 r.pid) _))
      ∙ drop-append 18 (r.user ++ le32 r.pid) _
          (omega (arith, length-append r.user (le32 r.pid), h.user))

  drop-rest : drop 62 (body r ++ rest) ≡ rest
  drop-rest = drop-append 62 (body r) rest (
      omega
        (arith, length-append r.user (le32 r.pid ++ (le32 r.ppid ++ r.timings)), h.user, h.timings))

  read_pids-encode : read_pids python2 (body r ++ rest) ≡ ok (entry r.pid r.ppid rest)
  unfolding read_pids
  read_pids-encode =
      ap
        (λ x.
          pids_of x (read_le_int32 python2 (drop 18 (body r ++ rest))) (drop 62 (body r ++ rest)))
        (ap (read_le_int32 python2) drop-pid
          ∙ read_le_int32-le32 r.pid (le32 r.ppid ++ (r.timings ++ rest)) h.pid)
      ∙ ap (λ x. pids_of (ok r.pid) x (drop 62 (body r ++ rest)))
          (ap (read_le_int32 python2) drop-ppid
            ∙ read_le_int32-le32 r.ppid (r.timings ++ rest) h.ppid)
      ∙ ap (pids_of (ok r.pid) (ok r.ppid)) drop-rest

  read_record-encode :
      read_record python2 (drop 1 (encode r ++ rest)) ≡ ok (entry r.pid r.ppid rest)
  unfolding read_record ord_read encode
  read_record-encode = rw (le→ltb_false 3 r.version h.version) read_pids-encode

is_end-encode : (r : AcctRecord) (rest : List ℕ) → is_end python2 (encode r ++ rest) ≡ false
unfolding is_end encode
is_end-encode r rest = refl

read_records-encode_all :
    (fuel : ℕ) (parent_map : Dict ℤ ℤ) (rs : List AcctRecord)
    → AllAcct rs
    → length rs < fuel
    → read_records python2 fuel parent_map (encode_all rs)
      ≡ some (ok (some (parents_of parent_map rs)))
unfolding encode_all parents_of read_records
read_records-encode_all zero parent_map rs h lt = elim lt [ ]
read_records-encode_all (suc fuel) parent_map [] h lt = unfold read_records is_end in refl
read_records-encode_all (suc fuel) parent_map (r ∷ rs) h lt =
    rw (read_records, is_end-encode r (encode_all rs), read_record-encode r (encode_all rs) h.0)
      (read_records-encode_all fuel (put parent_map (pos r.pid) (pos r.ppid)) rs h.1
        (omega (arith, lt)))

length-encode_all : (rs : List AcctRecord) → length rs ≤ length (encode_all rs)
unfolding encode_all encode
length-encode_all [] = omega arith
length-encode_all (r ∷ rs) =
    omega (arith, length-append (encode r) (encode_all rs), length-encode_all rs)

-- Under Python 2 the parser reads back every file of whole records: the map has the parents that the
-- records say, a later record of a pid over an earlier one.
pub parse_pacct-encode_all :
    (rs : List AcctRecord)
    → AllAcct rs
    → parse_pacct python2 (encode_all rs) ≡ some (ok (some (parents_of ((pos 0, pos 0) ∷ []) rs)))
unfolding parse_pacct
parse_pacct-encode_all rs h =
    read_records-encode_all (suc (length (encode_all rs))) ((pos 0, pos 0) ∷ []) rs h
      (omega (arith, length-encode_all rs))
