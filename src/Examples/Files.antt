-- ===== src/Examples/Files.antt =====
-- The kernel log, the accounting file and whole archives, on small inputs.
use bootchart.Prelude.{
  ℕ, ◌≡◌, ◌⊎◌, refl, true, none, some, Option, List, [], ◌∷◌, Text, text_eq, codes, arith,
}
use bootchart.Prelude.Int.{pos}
use bootchart.Prelude.Dict.{get, put}
use bootchart.Prelude.Results.{Error, Result, fold_results, ok, err}
use bootchart.Prelude.Words.{split_words, has_char, split_double, strip, ends_with, split_on, int}
use bootchart.Parse.Blocks.{parse_timed_blocks}
use bootchart.Parse.Maps.{get_num_cpus, parse_headers}
use bootchart.Parse.DiskStat.{parse_proc_disk_stat_log}
use bootchart.Parse.Taskstats.{parse_taskstats_log}
use bootchart.Parse.ProcStat.{parse_proc_stat_log}
use bootchart.Parse.Pacct.{python2, python3, parse_pacct}
use bootchart.Parse.Pacct.Bytes.{parse_pacct-raises}
use bootchart.Parse.Pacct.RoundTrip.{
  AcctRecord, AllAcct, encode_all, parents_of, parse_pacct-encode_all,
}
use bootchart.Parse.Dmesg.{initial, add_dmesg_lines}
use bootchart.Parse.Dmesg.Laws.{HasNumbers, initial-HasNumbers, add_dmesg_lines-HasNumbers}
use bootchart.Parse.Files.{
  File, TraceState, no_trace, valid, parse_members, header, proc_diskstats, taskstats, proc_ps,
  proc_stat,
}
use bootchart.Parse.Files.Laws.{HasMember, parse_members-valid}

abbrev bytes_14 : List ℕ
bytes_14 = 0 ∷ 0 ∷ 0 ∷ 0 ∷ 0 ∷ 0 ∷ 0 ∷ 0 ∷ 0 ∷ 0 ∷ 0 ∷ 0 ∷ 0 ∷ 0 ∷ []

abbrev bytes_40 : List ℕ
bytes_40 =
    0 ∷ 0 ∷ 0 ∷ 0 ∷ 0 ∷ 0 ∷ 0 ∷ 0 ∷ 0 ∷ 0 ∷ 0 ∷ 0 ∷ 0 ∷ 0 ∷ 0 ∷ 0 ∷ 0 ∷ 0 ∷ 0 ∷ 0 ∷ 0 ∷ 0 ∷ 0 ∷ 0
    ∷ 0 ∷ 0 ∷ 0 ∷ 0 ∷ 0 ∷ 0 ∷ 0 ∷ 0 ∷ 0 ∷ 0 ∷ 0 ∷ 0 ∷ 0 ∷ 0 ∷ 0 ∷ 0 ∷ []

abbrev acct_record : ℕ → ℕ → AcctRecord
acct_record pid ppid = record {
  flag = 0;
  version = 3;
  user = bytes_14;
  pid = pid;
  ppid = ppid;
  timings = bytes_40;
}

abbrev acct_records : List AcctRecord
acct_records = acct_record 5 1 ∷ acct_record 70000 5 ∷ []

acct_records-AllAcct : AllAcct acct_records
acct_records-AllAcct = (
  record {
    version = omega arith;
    user = refl;
    pid = omega arith;
    ppid = omega arith;
    timings = refl;
  },
  (
    record {
      version = omega arith;
      user = refl;
      pid = omega arith;
      ppid = omega arith;
      timings = refl;
    },
    tt,
  ),
)

parse_pacct-encode_all_example :
    parse_pacct python2 (encode_all acct_records)
    ≡ some (ok (some (parents_of ((pos 0, pos 0) ∷ []) acct_records)))
parse_pacct-encode_all_example = parse_pacct-encode_all acct_records acct_records-AllAcct

parse_pacct-raises_example :
    ((e : Error) × (parse_pacct python3 (encode_all acct_records) ≡ some (err e)))
    ⊎ (parse_pacct python3 (encode_all acct_records) ≡ some (ok none))
parse_pacct-raises_example = parse_pacct-raises (encode_all acct_records)

abbrev dmesg_lines : List Text
dmesg_lines =
    codes "[    0.039993] calling  migration_init+0x0/0x6b @ 1"
    ∷ codes "[    0.040100] initcall migration_init+0x0/0x6b returned 1 after 0 usecs"
    ∷ codes "[    0.050000] calling  spawn_init+0x0/0x6b @ 1"
    ∷ []

add_dmesg_lines-HasNumbers_example : HasNumbers (add_dmesg_lines initial dmesg_lines)
add_dmesg_lines-HasNumbers_example =
    add_dmesg_lines-HasNumbers initial dmesg_lines initial-HasNumbers

abbrev file : Text → Option File
file text = some (record { text = text; lines = []; replaced = text; raw = [] })

abbrev members : List (Text × Option File)
members =
    (codes "header", file (codes "system.cpu = model name: Intel (4)\n"))
    ∷ (
      codes "proc_diskstats.log",
      file (
          codes "100\n8 0 sda 1 1 10 1 1 1 20 1 1 30 1\n\n120\n8 0 sda 1 1 50 1 1 1 80 1 1 90 1\n"),
    )
    ∷ (codes "taskstats.log", file (codes "100\n5 1 (sh) 7 0 0\n\n120\n5 1 (sh) 9 3 0\n"))
    ∷ (codes "proc_stat.log", file (codes "100\ncpu 1 1 1 1 1 1 1\n\n120\ncpu 2 2 2 2 2 2 2\n"))
    ∷ []

abbrev read : Result TraceState → TraceState
read (ok s) = s
read (err e) = no_trace

members-ok :
    parse_members python3 no_trace members ≡ ok (read (parse_members python3 no_trace members))
unfolding parse_members parse_timed_blocks split_double strip ends_with split_on int fold_results
    split_words has_char get text_eq put get_num_cpus parse_headers parse_proc_disk_stat_log
    parse_taskstats_log parse_proc_stat_log
members-ok = refl

members-valid : valid (read (parse_members python3 no_trace members)) ≡ true
unfolding parse_members parse_timed_blocks split_double strip ends_with split_on int fold_results
    split_words has_char get text_eq put get_num_cpus parse_headers parse_proc_disk_stat_log
    parse_taskstats_log parse_proc_stat_log valid
members-valid = refl

parse_members-valid_example :
    HasMember header members
    × HasMember proc_diskstats members
    × (HasMember taskstats members ⊎ HasMember proc_ps members)
    × HasMember proc_stat members
parse_members-valid_example =
    parse_members-valid python3 members (read (parse_members python3 no_trace members)) members-ok
      members-valid
