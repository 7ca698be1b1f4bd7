-- ===== src/Parse/DiskStat.antt =====
-- DiskStatSample and DiskSample of samples.py, and _parse_proc_disk_stat_log.
pub mod Laws
use bootchart.Prelude.{
  ℕ, suc, ◌*◌, Bool, true, false, Option, none, some, List, [], ◌∷◌, Text, codes, leb, ◌==◌, ◌&&◌,
  ◌||◌, if◌then◌else◌,
}
use bootchart.Prelude.Int.{ℤ, pos, ◌+ℤ◌, ◌-ℤ◌, ◌*ℤ◌, eqb_ℤ}
use bootchart.Prelude.Ratio.{Ratio, ratio, is_positive, exceeds_one}
use bootchart.Prelude.Results.{Result, ok, err, value_error, or_raise, fold_results, ◌>>=◌}
use bootchart.Prelude.Words.{split_words, int, has_char}
use bootchart.Parse.Blocks.{TimedBlock, parse_timed_blocks}
use bootchart.Parse.Meminfo.{behind}

-- `diskdata` is the sums of read sectors, written sectors and time in use.
pub record DiskStatSample : Type 0 where
  pub time : ℤ
  pub rsect : ℤ
  pub wsect : ℤ
  pub use_time : ℤ

unfoldable pub add_diskdata : DiskStatSample → ℤ → ℤ → ℤ → DiskStatSample
add_diskdata s rsect wsect use_time = record s {
  rsect = s.rsect +ℤ rsect;
  wsect = s.wsect +ℤ wsect;
  use_time = s.use_time +ℤ use_time;
}

pub record DiskSample : Type 0 where
  pub time : ℤ
  pub read : Ratio
  pub write : Ratio
  pub util : Ratio

unfoldable pub is_digit : ℕ → Bool
is_digit c = leb b'0' c && leb c b'9'

-- `\d` and nothing more
unfoldable pub is_one_digit : Option Text → Bool
unfolding is_digit
is_one_digit (some (c ∷ [])) = is_digit c
is_one_digit _ = false

-- `d\d+.*`
unfoldable pub is_d_number : Text → Bool
unfolding is_digit
is_d_number (d ∷ c ∷ s) = (d == b'd') && is_digit c
is_d_number _ = false

-- `\d*d\d+.*`
unfoldable pub is_numbers : Text → Bool
unfolding is_d_number
is_numbers [] = false
is_numbers (c ∷ s) = if is_digit c then is_numbers s else is_d_number (c ∷ s)

-- `\d+d\d+.*` behind the prefix
unfoldable pub is_c_number : Option Text → Bool
unfolding is_numbers
is_c_number (some (c ∷ s)) = is_digit c && is_numbers s
is_c_number _ = false

-- `[hsv]d.`
unfoldable pub is_disk_letter : Text → Bool
is_disk_letter (a ∷ b ∷ c ∷ []) = has_char (codes "hsv") a && b == b'd'
is_disk_letter _ = false

-- disk_regex_re, on a token, which has no newline; the digits are those of ASCII.
unfoldable pub is_disk : Text → Bool
unfolding is_disk_letter is_one_digit is_c_number
is_disk s =
    is_disk_letter s
    || is_one_digit (behind s (codes "mtdblock"))
    || is_one_digit (behind s (codes "mmcblk"))
    || is_c_number (behind s (codes "cciss/c"))

unfoldable pub add_disk : DiskStatSample → Text → Text → Text → Result DiskStatSample
unfolding add_diskdata
add_disk s rsect wsect use_time = do
  r ← or_raise value_error (int rsect)
  w ← or_raise value_error (int wsect)
  u ← or_raise value_error (int use_time)
  ok (add_diskdata s r w u)

-- {major minor name rio rmerge rsect ruse wio wmerge wsect wuse running use aveq}; a line of fewer
-- tokens or of another name is passed over.
unfoldable pub add_disk_tokens : DiskStatSample → List Text → Result DiskStatSample
unfolding is_disk add_disk
add_disk_tokens s
      (t0 ∷ t1 ∷ disk ∷ t3 ∷ t4 ∷ rsect ∷ t6 ∷ t7 ∷ t8 ∷ wsect ∷ t10 ∷ t11 ∷ use_time ∷ t13
        ∷ rest) =
    if is_disk disk then add_disk s rsect wsect use_time else ok s
add_disk_tokens s _ = ok s

unfoldable pub add_disk_line : DiskStatSample → Text → Result DiskStatSample
unfolding add_disk_tokens
add_disk_line s line = add_disk_tokens s (split_words line)

unfoldable pub disk_stat_samples : List TimedBlock → Result (List DiskStatSample)
unfolding add_disk_line
disk_stat_samples [] = ok []
disk_stat_samples (b ∷ bs) = do
  s ←
      fold_results add_disk_line
        (record { time = b.time; rsect = pos 0; wsect = pos 0; use_time = pos 0 }) b.lines
  rest ← disk_stat_samples bs
  ok (s ∷ rest)

-- max(0.0, min(1.0, util))
unfoldable pub clamp : Ratio → Ratio
clamp r =
    if exceeds_one r
    then record { num = pos 1; den = 1 }
    else if is_positive r
    then r
    else record { num = pos 0; den = 1 }

-- sample1.time - sample2.time, or 1 for no time at all
unfoldable pub interval_of : DiskStatSample → DiskStatSample → ℤ
interval_of a b = if eqb_ℤ (a.time -ℤ b.time) (pos 0) then pos 1 else a.time -ℤ b.time

-- x / n
unfoldable pub divide_by : Ratio → ℕ → Ratio
divide_by r n = record { num = r.num; den = r.den * n }

-- sectors / 2.0 * 100.0 / interval
unfoldable pub throughput : ℤ → ℤ → Ratio
unfolding divide_by ratio
throughput sectors interval = divide_by (ratio (sectors *ℤ pos 100) interval) 2

-- `num_cpu` comes from get_num_cpus.
unfoldable pub disk_sample : ℕ → DiskStatSample → DiskStatSample → DiskSample
unfolding interval_of throughput clamp
disk_sample num_cpu a b =
    let interval : ℤ = interval_of a b in
    record {
      time = b.time;
      read = throughput (a.rsect -ℤ b.rsect) interval;
      write = throughput (a.wsect -ℤ b.wsect) interval;
      util = clamp (divide_by (divide_by (ratio (a.use_time -ℤ b.use_time) interval) 10) num_cpu);
    }

-- zip(disk_stat_samples[:-1], disk_stat_samples[1:])
unfoldable pub disk_samples : ℕ → List DiskStatSample → List DiskSample
unfolding disk_sample
disk_samples num_cpu [] = []
disk_samples num_cpu (a ∷ []) = []
disk_samples num_cpu (a ∷ b ∷ rest) = disk_sample num_cpu a b ∷ disk_samples num_cpu (b ∷ rest)

unfoldable pub parse_proc_disk_stat_log : ℕ → Text → Result (List DiskSample)
unfolding disk_stat_samples disk_samples
parse_proc_disk_stat_log num_cpu text = do
  blocks ← parse_timed_blocks text
  samples ← disk_stat_samples blocks
  ok (disk_samples num_cpu samples)
