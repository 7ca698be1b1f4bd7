-- ===== src/Parse/Taskstats.antt =====
-- _parse_taskstats_log: the samples of every process, in nanoseconds.
pub mod Laws
pub mod Totals
use bootchart.Prelude.{
  ℕ, ◌-◌, ◌*◌, Bool, true, false, not, Option, none, some, List, [], ◌∷◌, ◌++◌, Text, codes,
  text_eq, length, ltb, if◌then◌else◌,
}
use bootchart.Prelude.Int.{ℤ, pos, ◌+ℤ◌, ◌-ℤ◌, ◌*ℤ◌, ltb_ℤ}
use bootchart.Prelude.Dict.{Dict, int_key, get, put}
use bootchart.Prelude.Results.{Result, ok, err, value_error, or_raise, fold_results, ◌>>=◌}
use bootchart.Prelude.Words.{split_on, strip_of, has_char, int}
use bootchart.Samples.{Process, ProcessSample, CpuSample, new_process, split}
use bootchart.Parse.Blocks.{TimedBlock, parse_timed_blocks}

-- The fields of one line: { pid, ppid, comm, cpu_run_real_total, blkio_delay_total,
-- swapin_delay_total }
pub record TaskLine : Type 0 where
  pub opid : ℤ
  pub ppid : ℤ
  pub cmd : Text
  pub cpu_ns : ℤ
  pub blkio_delay_ns : ℤ
  pub swapin_delay_ns : ℤ

-- The numbers of a line of six tokens; the pids are made room for trees of pids.
unfoldable pub read_fields : Text → Text → Text → Text → Text → Text → Result TaskLine
read_fields a b c d e f = do
  opid ← or_raise value_error (int a)
  ppid ← or_raise value_error (int b)
  cpu ← or_raise value_error (int d)
  blkio ← or_raise value_error (int e)
  swapin ← or_raise value_error (int f)
  ok (record {
    opid = opid *ℤ pos 1000;
    ppid = ppid *ℤ pos 1000;
    cmd = strip_of (has_char (codes ")")) (strip_of (has_char (codes "(")) c);
    cpu_ns = cpu;
    blkio_delay_ns = blkio;
    swapin_delay_ns = swapin;
  })

-- `none` for a line that is passed over: it has not six tokens.
unfoldable pub read_tokens : List Text → Result (Option TaskLine)
unfolding read_fields
read_tokens (a ∷ b ∷ c ∷ d ∷ e ∷ f ∷ []) = do line ← read_fields a b c d e f; ok (some line)
read_tokens _ = ok none

unfoldable pub read_line : Text → Result (Option TaskLine)
unfolding read_tokens
read_line line = read_tokens (split_on b' ' line)

-- The state of the loop.
pub record TaskState : Type 0 where
  pub process_map : Dict ℤ (Process ℤ)
  pub pid_rewrites : Dict ℤ ℤ

-- `pidRewrites[opid] if opid in pidRewrites else opid`
unfoldable pub rewritten : TaskLine → TaskState → ℤ
rewritten line s = elim (get s.pid_rewrites line.opid) [ none ↦ line.opid | some pid ↦ pid ]

-- With the process of that pid, if there is one: the key of the entry and the process that the line
-- is about, and the state in which the entry stands. A change of name is a new process.
unfoldable pub find_at :
    ℤ → TaskLine → TaskState → ℤ → Option (Process ℤ) → ℤ × Process ℤ × TaskState
find_at time line s pid none =
    let process : Process ℤ = new_process pid line.cmd line.ppid time in
    (pid, process, record s { process_map = put s.process_map pid process })
find_at time line s pid (some process) =
    let renamed : Process ℤ = split process (pid +ℤ pos 1) line.cmd line.ppid time in
    if text_eq process.cmd line.cmd then (pid, process, s) else (
      pid +ℤ pos 1,
      renamed,
      record s {
        process_map = put s.process_map (pid +ℤ pos 1) renamed;
        pid_rewrites = put s.pid_rewrites line.opid (pid +ℤ pos 1);
      },
    )

unfoldable pub find_process : ℤ → TaskLine → TaskState → ℤ × Process ℤ × TaskState
unfolding rewritten find_at
find_process time line s =
    find_at time line s (rewritten line s) (get s.process_map (rewritten line s))

unfoldable pub state_of : ℤ → ℤ → ℤ → Text
state_of cpu blkio swapin =
    if ltb_ℤ (pos 0) cpu
    then codes "R"
    else if ltb_ℤ (pos 0) (blkio +ℤ swapin)
    then codes "D"
    else codes "S"

-- The sample of a line: how far the counters have advanced.
unfoldable pub sample_of : ℤ → TaskLine → Process ℤ → ProcessSample ℤ
sample_of time line p =
    let cpu : ℤ = line.cpu_ns -ℤ p.last_cpu_ns in
    let blkio : ℤ = line.blkio_delay_ns -ℤ p.last_blkio_delay_ns in
    let swapin : ℤ = line.swapin_delay_ns -ℤ p.last_swapin_delay_ns in
    record {
      time = time;
      state = state_of cpu blkio swapin;
      cpu_sample = record { time = none; user = cpu; sys = pos 0; io = blkio; swap = swapin };
    }

-- `delta_cpu_ns + delta_blkio_delay_ns + delta_swapin_delay_ns`
abbrev pub advance : CpuSample ℤ → ℤ
advance c = c.user +ℤ c.io +ℤ c.swap

-- The rest of the loop's body: the sample, if there is something in it, and the counters.
unfoldable pub take_sample : ℤ → TaskLine → Process ℤ → Process ℤ
unfolding state_of sample_of
take_sample time line p =
    let sample : ProcessSample ℤ = sample_of time line p in
    record p {
      samples =
          if ltb_ℤ (pos 0) (advance sample.cpu_sample) then p.samples ++ sample ∷ [] else p.samples;
      last_cpu_ns = line.cpu_ns;
      last_blkio_delay_ns = line.blkio_delay_ns;
      last_swapin_delay_ns = line.swapin_delay_ns;
    }

-- One line. The process object is changed in its entry.
unfoldable pub add_line : ℤ → TaskLine → TaskState → TaskState
unfolding find_process take_sample
add_line time line s =
    let (key, process, s') = find_process time line s in
    record s' { process_map = put s'.process_map key (take_sample time line process) }

-- A line of the file, which may be passed over.
unfoldable pub add_read : ℤ → TaskState → Option TaskLine → TaskState
unfolding add_line
add_read time s none = s
add_read time s (some line) = add_line time line s

unfoldable pub add_text : ℤ → TaskState → Text → Result TaskState
unfolding read_line add_read
add_text time s text = do line ← read_line text; ok (add_read time s line)

unfoldable pub add_block : TaskState → TimedBlock → Result TaskState
unfolding add_text fold_results
add_block s b = fold_results (add_text b.time) s b.lines

-- The map before the first block's lines: init, for which there is no start time.
abbrev pub init_state : TaskState
unfolding new_process put
init_state = record {
  process_map = put [] (pos 1000) (new_process (pos 1) (codes "[init]") (pos 0) (pos 0));
  pid_rewrites = [];
}

-- ProcessStats; `sample_period` is the quotient of its two numbers.
pub record ProcessStats (V : Type 0) : Type 0 where
  pub process_map : Dict ℤ (Process V)
  pub sample_count : ℕ
  pub sample_period : ℤ × ℕ
  pub start_time : ℤ
  pub end_time : ℤ

-- The time of the last block; `default` if there is none.
unfoldable pub last_time : ℤ → List TimedBlock → ℤ
last_time default [] = default
last_time default (b ∷ bs) = last_time b.time bs

unfoldable pub stats_of : List TimedBlock → TaskState → Option (ProcessStats ℤ)
unfolding last_time
stats_of (first ∷ second ∷ more) s = some (record {
  process_map = s.process_map;
  sample_count = length (first ∷ second ∷ more);
  sample_period = (last_time first.time (second ∷ more) -ℤ first.time, length (second ∷ more));
  start_time = first.time;
  end_time = last_time first.time (second ∷ more);
})
stats_of _ s = none

-- `none` is the None that is returned for fewer than two blocks.
unfoldable pub parse_taskstats_log : Text → Result (Option (ProcessStats ℤ))
unfolding add_block stats_of fold_results
parse_taskstats_log text = do
  blocks ← parse_timed_blocks text
  s ← fold_results add_block init_state blocks
  ok (stats_of blocks s)
