-- ===== src/Examples/Parse.antt =====
-- parsing.py on small logs.
use bootchart.Prelude.{ℕ, ◌≡◌, refl, none, some, List, [], ◌∷◌, Text, text_eq, codes, arith}
use bootchart.Prelude.Int.{ℤ, pos, ◌+ℤ◌, ◌≤ℤ◌}
use bootchart.Prelude.Results.{fold_results, ok, err}
use bootchart.Samples.{Process, ProcessSample, new_process, end_time}
use bootchart.Samples.Stats.{calc_stats, last_sample_time, ns_load}
use bootchart.Samples.Stats.Laws.{AllBetween, calc_stats-AllBetween}
use bootchart.Prelude.Words.{split_words, has_char, split_double, strip, ends_with, split_on, int}
use bootchart.Parse.Blocks.{parse_timed_blocks, parse_blocks, read_blocks, iter_parse_timed_blocks}
use bootchart.Parse.Blocks.Laws.{iter_parse_timed_blocks_unfiltered}
use bootchart.Parse.Taskstats.{TaskLine, ProcessStats, take_sample, parse_taskstats_log}
use bootchart.Parse.Taskstats.Laws.{AllProcessesActive, parse_taskstats_log-AllActive}
use bootchart.Parse.Taskstats.Totals.{take_samples, AllGoOn, Accounts, take_samples-Accounts}
use bootchart.Parse.ProcStat.{Times, cpu_sample}
use bootchart.Parse.ProcStat.Laws.{Advances, AreShares, cpu_sample-AreShares}
use bootchart.Parse.Meminfo.{MemSample, parse_proc_meminfo_log}
use bootchart.Prelude.Dict.{Dict, get}
use bootchart.Parse.Maps.{get_num_cpus}
use bootchart.Parse.DiskStat.{DiskSample, parse_proc_disk_stat_log}

-- Two blocks about one process, which runs between them.
abbrev taskstats : Text
taskstats = codes "100\n5 1 (sh) 7 0 0\n\n120\n5 1 (sh) 9 3 0\n"

abbrev taskstats_stats : ProcessStats ℤ
taskstats_stats = elim (parse_taskstats_log taskstats) [
  | ok (some s) ↦ s
  | _ ↦ record {
    process_map = [];
    sample_count = 0;
    sample_period = (pos 0, 0);
    start_time = pos 0;
    end_time = pos 0;
  }
]

taskstats-ok : parse_taskstats_log taskstats ≡ ok (some taskstats_stats)
unfolding parse_taskstats_log parse_timed_blocks split_double strip ends_with split_on int
taskstats-ok = refl

parse_taskstats_log-AllActive_example : AllProcessesActive taskstats_stats.process_map
parse_taskstats_log-AllActive_example =
    parse_taskstats_log-AllActive taskstats taskstats_stats taskstats-ok

abbrev meminfo : Text
meminfo =
    codes
      "100\nMemTotal: 9 kB\nMemFree: 8 kB\nBuffers: 7 kB\nCached: 6 kB\nSwapTotal: 5 kB\nSwapFree: 4 kB\n\n120\nMemTotal: 9 kB\n"

abbrev meminfo_samples : List MemSample
meminfo_samples = elim (parse_proc_meminfo_log meminfo) [ ok s ↦ s | err e ↦ [] ]

meminfo-ok : parse_proc_meminfo_log meminfo ≡ ok meminfo_samples
unfolding parse_proc_meminfo_log parse_timed_blocks split_double strip ends_with split_on int
meminfo-ok = refl

abbrev ps_lines : List Text
ps_lines = codes "100\n" ∷ codes "1 (init) S not running\n" ∷ codes "\n" ∷ codes "120\n" ∷ []

iter_parse_timed_blocks_unfiltered_example :
    iter_parse_timed_blocks ps_lines ≡ parse_blocks (read_blocks [] ps_lines)
iter_parse_timed_blocks_unfiltered_example = iter_parse_timed_blocks_unfiltered ps_lines

abbrev shell : Process ℤ
unfolding new_process
shell = new_process (pos 5000) (codes "sh") (pos 1000) (pos 100)

abbrev task_line : ℕ → ℕ → TaskLine
task_line cpu blkio = record {
  opid = pos 5000;
  ppid = pos 1000;
  cmd = codes "sh";
  cpu_ns = pos cpu;
  blkio_delay_ns = pos blkio;
  swapin_delay_ns = pos 0;
}

abbrev task_lines : List (ℤ × TaskLine)
task_lines = (pos 100, task_line 7 0) ∷ (pos 120, task_line 9 3) ∷ []

task_lines-AllGoOn : AllGoOn shell task_lines
unfolding new_process take_sample
task_lines-AllGoOn = (
  record { cpu = omega arith; blkio = omega arith; swapin = omega arith },
  (record { cpu = omega arith; blkio = omega arith; swapin = omega arith }, tt),
)

take_samples-Accounts_example : Accounts shell (take_samples shell task_lines)
take_samples-Accounts_example = take_samples-Accounts shell task_lines task_lines-AllGoOn

abbrev times : ℕ → ℕ → Times
times busy idle = record {
  user = pos busy;
  nice = pos 1;
  system = pos busy;
  idle = pos idle;
  io_wait = pos busy;
  irq = pos 0;
  softirq = pos 2;
}

times-Advances : Advances (times 5 10) (times 8 12)
times-Advances = record {
  user = omega arith;
  nice = omega arith;
  system = omega arith;
  idle = omega arith;
  io_wait = omega arith;
  irq = omega arith;
  softirq = omega arith;
}

cpu_sample-AreShares_example : AreShares (cpu_sample (pos 120) (times 5 10) (times 8 12))
cpu_sample-AreShares_example =
    cpu_sample-AreShares (pos 120) (times 5 10) (times 8 12) times-Advances

abbrev tick : ℕ → ProcessSample ℤ
tick t = record {
  time = pos t;
  state = codes "R";
  cpu_sample = record { time = none; user = pos 5; sys = pos 0; io = pos 0; swap = pos 0 };
}

abbrev ticking : Process ℤ
ticking = record shell { samples = tick 90 ∷ tick 120 ∷ [] }

calc_stats-AllBetween_example :
    AllBetween
      (calc_stats (pos 20) ticking).start_time
      (last_sample_time (pos 90) (tick 120 ∷ []))
      (tick 90 ∷ tick 120 ∷ [])
    × (end_time (calc_stats (pos 20) ticking) ≡ last_sample_time (pos 90) (tick 120 ∷ []) +ℤ pos 20)
    × ((calc_stats (pos 20) ticking).start_time ≤ℤ ticking.start_time)
calc_stats-AllBetween_example =
    calc_stats-AllBetween (pos 20) ticking (tick 90) (tick 120 ∷ []) refl (omega arith, tt)

abbrev headers : Dict Text Text
headers = (codes "system.cpu", codes "model name: Intel (R) CPU (4)") ∷ []

headers-ok : get_num_cpus (some headers) ≡ ok 4
unfolding get_num_cpus get text_eq
headers-ok = refl

abbrev diskstats : Text
diskstats = codes "100\n8 0 sda 1 1 10 1 1 1 20 1 1 30 1\n\n120\n8 0 sda 1 1 50 1 1 1 80 1 1 90 1\n"

abbrev disk_log : List DiskSample
disk_log = elim (parse_proc_disk_stat_log 4 diskstats) [ ok s ↦ s | err e ↦ [] ]

diskstats-ok : parse_proc_disk_stat_log 4 diskstats ≡ ok disk_log
unfolding parse_proc_disk_stat_log parse_timed_blocks split_double strip ends_with split_on int
    fold_results split_words has_char
diskstats-ok = refl
