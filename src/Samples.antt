-- ===== src/Samples.antt =====
-- pybootchartgui/samples.py: the samples and the processes that the parsers fill in.
-- `V` is the type of a CPU sample's shares: whole nanoseconds for the taskstats log, fractions of
-- the sample's interval for the older logs. Times are whole numbers of the log's clock.
pub mod Stats
pub mod Load
use bootchart.Prelude.{Bool, Option, none, List, [], ◌++◌, Text}
use bootchart.Prelude.Int.{ℤ, pos, ◌+ℤ◌, ◌-ℤ◌, min_ℤ, max_ℤ}
use bootchart.Prelude.Sort.{sort_by}

-- class CPUSample; `none` is the time 'null' of a sample inside a process.
pub record CpuSample (V : Type 0) : Type 0 where
  pub time : Option ℤ
  pub user : V
  pub sys : V
  pub io : V
  pub swap : V

-- class ProcessSample
pub record ProcessSample (V : Type 0) : Type 0 where
  pub time : ℤ
  pub state : Text
  pub cpu_sample : CpuSample V

-- class Process, less its `child_list`, which the forests of Tree.antt hold, and its writer.
-- `parent` refers to the parent object by its key in the process map.
pub record Process (V : Type 0) : Type 0 where
  pub pid : ℤ
  pub cmd : Text
  pub exe : Text
  pub args : List Text
  pub ppid : ℤ
  pub start_time : ℤ
  pub duration : ℤ
  pub samples : List (ProcessSample V)
  pub parent : Option ℤ
  pub active : Option Bool
  pub last_user_cpu_time : Option ℤ
  pub last_sys_cpu_time : Option ℤ
  pub last_cpu_ns : ℤ
  pub last_blkio_delay_ns : ℤ
  pub last_swapin_delay_ns : ℤ

module _ {V : Type 0} where
  -- Process.__init__
  unfoldable pub new_process : ℤ → Text → ℤ → ℤ → Process V
  new_process pid cmd ppid start_time = record {
    pid = pid;
    cmd = cmd;
    exe = cmd;
    args = [];
    ppid = ppid;
    start_time = start_time;
    duration = pos 0;
    samples = [];
    parent = none;
    active = none;
    last_user_cpu_time = none;
    last_sys_cpu_time = none;
    last_cpu_ns = pos 0;
    last_blkio_delay_ns = pos 0;
    last_swapin_delay_ns = pos 0;
  }

  -- Process.split: a new process that goes on from the counters of `self`.
  unfoldable pub split : Process V → ℤ → Text → ℤ → ℤ → Process V
  unfolding new_process
  split self pid cmd ppid start_time =
      let fresh : Process V = new_process pid cmd ppid start_time in
      record fresh {
        last_cpu_ns = self.last_cpu_ns;
        last_blkio_delay_ns = self.last_blkio_delay_ns;
        last_swapin_delay_ns = self.last_swapin_delay_ns;
      }

  -- Process.get_end_time
  unfoldable pub end_time : Process V → ℤ
  end_time p = p.start_time +ℤ p.duration

  -- ProcessTree.merge_processes: `p1` takes the samples of `p2` and covers both runs.
  unfoldable pub merge_processes : Process V → Process V → Process V
  merge_processes p1 p2 =
      let start : ℤ = min_ℤ p1.start_time p2.start_time in
      let pendtime : ℤ = max_ℤ (p1.start_time +ℤ p1.duration) (p2.start_time +ℤ p2.duration) in
      record p1 {
        samples = sort_by (λ (s : ProcessSample V). s.time) (p1.samples ++ p2.samples);
        start_time = start;
        duration = pendtime -ℤ start;
      }
