-- ===== src/Parse/Dmesg.antt =====
-- _parse_dmesg: the calls of the kernel's boot as processes. Times are microseconds, and pids
-- millionths, which `idx` counts in: the units of the six decimals of a time stamp and of `inc`.
pub mod Laws
use bootchart.Prelude.{
  ℕ, zero, suc, ◌+◌, ◌*◌, ◌-◌, ◌/◌, ◌^◌, Bool, true, false, Option, none, some, List, [], ◌∷◌, Text,
  codes, text_eq, leb, ltb, ◌==◌, ◌&&◌, ◌||◌, if◌then◌else◌, ◌>>=◌,
}
use bootchart.Prelude.Int.{ℤ, pos, ◌+ℤ◌, ◌-ℤ◌, ltb_ℤ, eqb_ℤ, max_ℤ}
use bootchart.Prelude.Dict.{Dict, text_key, get, put}
use bootchart.Prelude.Words.{is_space, drop_while, split_on, starts_with}
use bootchart.Samples.{Process, new_process}
use bootchart.Parse.Meminfo.{behind, read_digits}

abbrev is_digit : ℕ → Bool
is_digit c = leb b'0' c && leb c b'9'

-- The digits of a decimal: `n` places of them, as many noughts as are missing, and no more places.
unfoldable pub decimals : ℕ → Text → ℕ
decimals zero s = 0
decimals (suc n) [] = 0
decimals (suc n) (c ∷ s) = (c - 48) * 10 ^ n + decimals n s

unfoldable pub take_while : (ℕ → Bool) → Text → Text
take_while p [] = []
take_while p (c ∷ s) = let rest = take_while p s in if p c then c ∷ rest else []

-- `\d+`, with what follows
unfoldable pub digits_of : Text → Option (Text × Text)
unfolding take_while drop_while
digits_of s = elim (take_while is_digit s) [
  | [] ↦ none
  | c ∷ ds ↦ some (c ∷ ds, drop_while is_digit s)
]

-- A character that has to be there.
unfoldable pub expect : ℕ → Text → Option Text
expect c [] = none
expect c (d ∷ s) = if d == c then some s else none

-- `\s+`
unfoldable pub spaces_of : Text → Option Text
unfolding drop_while
spaces_of [] = none
spaces_of (c ∷ s) = if is_space c then some (drop_while is_space s) else none

unfoldable pub number_of : Text → ℕ
unfolding read_digits
number_of s = elim (read_digits none s) [ none ↦ 0 | some n ↦ n ]

-- timestamp_re: the time in microseconds, and the message. Further decimals than six are dropped.
unfoldable pub match_timestamp : Text → Option (ℤ × Text)
unfolding expect digits_of spaces_of number_of decimals
match_timestamp line = do
  inner ← expect b'[' line
  (whole, s1) ← digits_of (drop_while is_space inner)
  s2 ← expect b'.' s1
  (part, s3) ← digits_of s2
  s4 ← expect b']' (drop_while is_space s3)
  message ← spaces_of s4
  some (pos (number_of whole * 1000000 + decimals 6 part), message)

-- A word and what follows it; `none` for no word.
unfoldable pub word_of : Text → Option (Text × Text)
unfolding take_while drop_while
word_of s = elim (take_while (λ c. if is_space c then false else true) s) [
  | [] ↦ none
  | c ∷ w ↦ some (c ∷ w, drop_while (λ c. if is_space c then false else true) s)
]

-- split_re: two words and the rest, which a blank parts from the second word.
unfoldable pub match_split : Text → Option (Text × Text × Text)
unfolding word_of spaces_of expect
match_split s = do
  (type', s1) ← word_of s
  s2 ← spaces_of s1
  (func, s3) ← word_of s2
  rest ← expect b' ' s3
  some (type', func, rest)

-- `\@ (\d+)`
unfoldable pub match_caller : Text → Option ℕ
unfolding behind digits_of number_of
match_caller rest = do s ← behind rest (codes "@ "); (ds, more) ← digits_of s; some (number_of ds)

-- The variables of the loop. An entry of the map is `none` where it is the `kernel` object.
pub record DmesgState : Type 0 where
  pub kernel : Process ℤ
  pub process_map : Dict Text (Option (Process ℤ))
  pub idx : ℕ
  pub base_ts : Option ℤ
  pub max_ts : ℤ

abbrev pub initial : DmesgState
unfolding new_process
initial = record {
  kernel = new_process (pos 0) (codes "k-boot") (pos 0) (pos 1000);
  process_map = (codes "k-boot", none) ∷ [];
  idx = 0;
  base_ts = none;
  max_ts = pos 0;
}

-- `time_ms > 1000` for a first time stamp: the clock has been set before.
unfoldable pub is_base : DmesgState → ℤ → Bool
is_base s time = elim s.base_ts [
  | none ↦ eqb_ℤ s.max_ts (pos 0) && ltb_ℤ (pos 1000000) time
  | some base ↦ false
]

abbrev since : Option ℤ → ℤ → ℤ
since none time = time
since (some base) time = time -ℤ base

-- func.split ('+', 1) [0]
unfoldable pub name_of : Text → Text
unfolding take_while
name_of func = take_while (λ c. if c == b'+' then false else true) func

-- The pid of the caller, in thousands of the kernel's pids; without one that of `kernel`.
unfoldable pub caller_of : DmesgState → Text → ℤ
unfolding match_caller
caller_of s rest = elim (match_caller rest) [
  | none ↦ s.kernel.pid
  | some n ↦ pos (n / 1000 * 1000000)
]

-- A line "calling".
unfoldable pub start_call : DmesgState → ℤ → Text → Text → DmesgState
unfolding caller_of name_of
start_call s time func rest =
    let ppid : ℤ = caller_of s rest in
    let process : Process ℤ = new_process (ppid +ℤ pos (suc s.idx)) (name_of func) ppid time in
    record s { idx = suc s.idx; process_map = put s.process_map func (some process) }

-- A line "initcall", with the entry of the function, if there is one.
unfoldable pub end_call : DmesgState → ℤ → Text → Option (Option (Process ℤ)) → DmesgState
end_call s time func none = s
end_call s time func (some none) = record s {
  kernel = record s.kernel { duration = time -ℤ s.kernel.start_time };
}
end_call s time func (some (some p)) = record s {
  process_map = put s.process_map func (some (record p { duration = time -ℤ p.start_time }));
}

-- The three kinds of message that count.
unfoldable pub add_event : DmesgState → ℤ → Text → Text × Text × Text → DmesgState
unfolding start_call end_call
add_event s time message (type', func, rest) =
    if starts_with message (codes "Write protecting the")
      || starts_with message (codes "Freeing unused kernel memory")
    then record s { kernel = record s.kernel { duration = time } }
    else if text_eq type' (codes "calling")
    then start_call s time func rest
    else if text_eq type' (codes "initcall")
    then end_call s time func (get s.process_map func)
    else s

-- A message with its time stamp, if it is not the one that sets the base.
unfoldable pub add_message : DmesgState → ℤ → Text → DmesgState
unfolding add_event match_split
add_message s time message =
    let s' : DmesgState = record s { max_ts = max_ℤ time s.max_ts } in
    elim (match_split message) [
      | none ↦ s'
      | some event ↦ add_event s' (since s.base_ts time) message event
    ]

unfoldable pub add_dmesg_line : DmesgState → Text → DmesgState
unfolding match_timestamp is_base add_message
add_dmesg_line s line = elim (match_timestamp line) [
  | none ↦ s
  | some (time, message) ↦
      if is_base s time then record s { base_ts = some time } else add_message s time message
]

unfoldable pub add_dmesg_lines : DmesgState → List Text → DmesgState
unfolding add_dmesg_line
add_dmesg_lines s [] = s
add_dmesg_lines s (line ∷ lines) = add_dmesg_lines (add_dmesg_line s line) lines

-- processMap.values()
unfoldable pub values_of : Process ℤ → Dict Text (Option (Process ℤ)) → List (Process ℤ)
values_of kernel [] = []
values_of kernel ((func, none) ∷ map) = kernel ∷ values_of kernel map
values_of kernel ((func, some p) ∷ map) = p ∷ values_of kernel map

unfoldable pub parse_dmesg : Text → List (Process ℤ)
unfolding add_dmesg_lines values_of
parse_dmesg text =
    let s : DmesgState = add_dmesg_lines initial (split_on b'\n' text) in
    values_of s.kernel s.process_map
