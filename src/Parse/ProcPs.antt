-- ===== src/Parse/ProcPs.antt =====
-- _parse_proc_ps_log: the samples of every process, from /proc/*/stat.
use bootchart.Prelude.{
  ℕ, suc, ◌+◌, ◌==◌, Bool, Option, none, some, List, [], ◌∷◌, ◌++◌, Text, codes, length, get_elem?,
  take, drop, ltb, if◌then◌else◌,
}
use bootchart.Prelude.Int.{ℤ, pos, ◌-ℤ◌, ◌*ℤ◌, min_ℤ, max_ℤ}
use bootchart.Prelude.Dict.{Dict, int_key, get, put}
use bootchart.Prelude.Ratio.{Ratio, ratio}
use bootchart.Prelude.Results.{
  Result, ok, err, value_error, index_error, or_raise, fold_results, ◌>>=◌,
}
use bootchart.Prelude.Words.{split_on, strip_of, has_char, join, int}
use bootchart.Samples.{Process, ProcessSample, new_process}
use bootchart.Samples.Load.{calc_load}
use bootchart.Parse.Blocks.{TimedBlock, iter_parse_timed_blocks}
use bootchart.Parse.Taskstats.{ProcessStats}

-- `token[-1] == ')'`; an empty token has no last character.
unfoldable pub ends_paren : Text → Result Bool
ends_paren [] = err index_error
ends_paren (c ∷ []) = ok (c == b')')
ends_paren (c ∷ d ∷ s) = ends_paren (d ∷ s)

-- `[index for index, token in enumerate(tokens[1:]) if token[-1] == ')']`
unfoldable pub paren_indexes : ℕ → List Text → Result (List ℕ)
unfolding ends_paren
paren_indexes index [] = ok []
paren_indexes index (token ∷ tokens) = do
  closed ← ends_paren token
  later ← paren_indexes (suc index) tokens
  ok (if closed then index ∷ later else later)

-- The first element of a list: `[0]`.
unfoldable pub first_of_list : List ℕ → Result ℕ
first_of_list [] = err index_error
first_of_list (n ∷ ns) = ok n

unfoldable pub token_at : List Text → ℕ → Result Text
token_at tokens index = or_raise index_error (get_elem? tokens index)

unfoldable pub int_at : List Text → ℕ → Result ℤ
unfolding token_at
int_at tokens index = do token ← token_at tokens index; or_raise value_error (int token)

pub record PsLine : Type 0 where
  pub pid : ℤ
  pub cmd : Text
  pub state : Text
  pub ppid : ℤ
  pub user_cpu : ℤ
  pub sys_cpu : ℤ
  pub stime : ℤ

-- The fields of a line of at least 21 tokens; the command may hold spaces.
unfoldable pub read_ps_tokens : List Text → Result PsLine
unfolding paren_indexes first_of_list int_at
read_ps_tokens tokens = do
  indexes ← paren_indexes 0 (drop 1 tokens)
  offset ← first_of_list indexes
  pid ← int_at tokens 0
  state ← token_at tokens (2 + offset)
  ppid ← int_at tokens (3 + offset)
  user_cpu ← int_at tokens (13 + offset)
  sys_cpu ← int_at tokens (14 + offset)
  stime ← int_at tokens (21 + offset)
  ok (record {
    pid = pid *ℤ pos 1000;
    cmd = join (codes " ") (take (1 + offset) (drop 1 tokens));
    state = state;
    ppid = ppid *ℤ pos 1000;
    user_cpu = user_cpu;
    sys_cpu = sys_cpu;
    stime = stime;
  })

-- `process.cmd.strip('()')`
unfoldable pub strip_parens : Text → Text
strip_parens cmd = strip_of (has_char (codes "()")) cmd

-- The process of a line: of that pid, under its latest name, or a new one.
unfoldable pub ps_process : ℤ → PsLine → Option (Process Ratio) → Process Ratio
unfolding strip_parens
ps_process time line none =
    new_process line.pid (strip_parens line.cmd) line.ppid (min_ℤ time line.stime)
ps_process time line (some process) = record process { cmd = strip_parens line.cmd }

-- The sample since the last one, if there is a last one.
unfoldable pub ps_samples : ℤ → ℤ → PsLine → Option ℤ → Option ℤ → List (ProcessSample Ratio)
unfolding calc_load
ps_samples time ltime line none last_sys = []
ps_samples time ltime line (some last_user) none = []
ps_samples time ltime line (some last_user) (some last_sys) =
    let (user, sys) =
      calc_load (line.user_cpu -ℤ last_user) (line.sys_cpu -ℤ last_sys)
        (max_ℤ (pos 1) (time -ℤ ltime)) in
    let nothing : Ratio = ratio (pos 0) (pos 1) in
    let sample : ProcessSample Ratio = record {
      time = time;
      state = line.state;
      cpu_sample = record { time = none; user = user; sys = sys; io = nothing; swap = nothing };
    } in
    sample ∷ []

unfoldable pub add_ps_line : ℤ → ℤ → Dict ℤ (Process Ratio) → PsLine → Dict ℤ (Process Ratio)
unfolding ps_process ps_samples
add_ps_line time ltime map line =
    let process : Process Ratio = ps_process time line (get map line.pid) in
    put map line.pid (record process {
      samples =
          process.samples
          ++ ps_samples time ltime line process.last_user_cpu_time process.last_sys_cpu_time;
      last_user_cpu_time = some line.user_cpu;
      last_sys_cpu_time = some line.sys_cpu;
    })

-- A line of the file; an empty one and one with too few tokens are passed over.
unfoldable pub add_ps_text : ℤ → ℤ → Dict ℤ (Process Ratio) → Text → Result (Dict ℤ (Process Ratio))
unfolding read_ps_tokens add_ps_line
add_ps_text time ltime map text =
    let tokens : List Text = split_on b' ' text in
    let added : Result (Dict ℤ (Process Ratio)) = (do
      line ← read_ps_tokens tokens
      ok (add_ps_line time ltime map line)) in
    if ltb (length tokens) 21 then ok map else added

-- The loop over the blocks, with `ltime`.
pub record PsState : Type 0 where
  pub process_map : Dict ℤ (Process Ratio)
  pub ltime : ℤ

unfoldable pub add_ps_block : PsState → TimedBlock → Result PsState
unfolding add_ps_text
add_ps_block s b = do
  map ← fold_results (add_ps_text b.time s.ltime) s.process_map b.lines
  ok (record { process_map = map; ltime = b.time })

unfoldable pub ps_stats_of : List TimedBlock → PsState → Option (ProcessStats Ratio)
ps_stats_of (first ∷ second ∷ more) s = some (record {
  process_map = s.process_map;
  sample_count = length (first ∷ second ∷ more);
  sample_period = (s.ltime -ℤ first.time, length (second ∷ more));
  start_time = first.time;
  end_time = s.ltime;
})
ps_stats_of _ s = none

unfoldable pub parse_proc_ps_log : List Text → Result (Option (ProcessStats Ratio))
unfolding add_ps_block ps_stats_of
parse_proc_ps_log lines = do
  blocks ← iter_parse_timed_blocks lines
  s ← fold_results add_ps_block (record { process_map = []; ltime = pos 0 }) blocks
  ok (ps_stats_of blocks s)
