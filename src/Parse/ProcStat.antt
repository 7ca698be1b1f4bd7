-- ===== src/Parse/ProcStat.antt =====
-- _parse_proc_stat_log: the shares of the CPU between two blocks.
pub mod Laws
use bootchart.Prelude.{
  ℕ, zero, suc, Bool, Option, none, some, List, [], ◌∷◌, ◌++◌, Text, length, ltb, if◌then◌else◌,
}
use bootchart.Prelude.Int.{ℤ, pos, ◌+ℤ◌, ◌-ℤ◌, max_ℤ}
use bootchart.Prelude.Ratio.{Ratio, ratio}
use bootchart.Prelude.Results.{Result, ok, err, value_error, or_raise, fold_results, ◌>>=◌}
use bootchart.Prelude.Words.{split_words, int}
use bootchart.Samples.{CpuSample}
use bootchart.Parse.Blocks.{TimedBlock, parse_timed_blocks}

-- The first seven CPU times: {user, nice, system, idle, io_wait, irq, softirq}
pub record Times : Type 0 where
  pub user : ℤ
  pub nice : ℤ
  pub system : ℤ
  pub idle : ℤ
  pub io_wait : ℤ
  pub irq : ℤ
  pub softirq : ℤ

-- [ int(token) for token in tokens ]
unfoldable pub ints : List Text → Result (List ℤ)
ints [] = ok []
ints (t ∷ ts) = do n ← or_raise value_error (int t); ns ← ints ts; ok (n ∷ ns)

-- `none` for fewer than seven numbers.
unfoldable pub times_of : List ℤ → Option Times
times_of (a ∷ b ∷ c ∷ d ∷ e ∷ f ∷ g ∷ rest) =
    some (record { user = a; nice = b; system = c; idle = d; io_wait = e; irq = f; softirq = g })
times_of _ = none

-- The sample between two readings: each delta over their sum, or over 1 if that is less.
unfoldable pub cpu_sample : ℤ → Times → Times → CpuSample Ratio
cpu_sample time l t =
    let user : ℤ = (t.user +ℤ t.nice) -ℤ (l.user +ℤ l.nice) in
    let system : ℤ = (t.system +ℤ t.irq +ℤ t.softirq) -ℤ (l.system +ℤ l.irq +ℤ l.softirq) in
    let idle : ℤ = t.idle -ℤ l.idle in
    let iowait : ℤ = t.io_wait -ℤ l.io_wait in
    let sum : ℤ = max_ℤ (user +ℤ system +ℤ idle +ℤ iowait) (pos 1) in
    record {
      time = some time;
      user = ratio user sum;
      sys = ratio system sum;
      io = ratio iowait sum;
      swap = ratio (pos 0) (pos 1);
    }

-- The samples and the last reading.
pub record StatState : Type 0 where
  pub samples : List (CpuSample Ratio)
  pub ltimes : Option Times

unfoldable pub add_times : ℤ → StatState → Option Times → StatState
unfolding cpu_sample
add_times time s none = s
add_times time s (some t) = record {
  samples = elim s.ltimes [ none ↦ s.samples | some l ↦ s.samples ++ cpu_sample time l t ∷ [] ];
  ltimes = some t;
}

-- `tokens = lines[0].split()`, with the first token left out; fewer than eight are passed over.
unfoldable pub read_times : List Text → Result (Option Times)
unfolding ints times_of
read_times tokens =
    let read : Result (Option Times) = (do ns ← ints tokens; ok (times_of ns)) in
    if ltb (length tokens) 7 then ok none else read

unfoldable pub add_stat : StatState → TimedBlock → Result StatState
unfolding read_times add_times
add_stat s b = elim b.lines [
  | [] ↦ ok s
  | line ∷ more ↦ elim (split_words line) [
    | [] ↦ ok s
    | name ∷ tokens ↦ do t ← read_times tokens; ok (add_times b.time s t)
  ]
]

unfoldable pub parse_proc_stat_log : Text → Result (List (CpuSample Ratio))
unfolding add_stat
parse_proc_stat_log text = do
  blocks ← parse_timed_blocks text
  s ← fold_results add_stat (record { samples = []; ltimes = none }) blocks
  ok s.samples
