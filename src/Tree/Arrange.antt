-- ===== src/Tree/Arrange.antt =====
-- ProcessTree.__init__ from the built tree on: the passes in their order, with the counts that are
-- reported.
pub mod Laws
use bootchart.Prelude.{
  ℕ, suc, ◌+◌, Bool, false, Option, none, some, List, [], ◌∷◌, Text, codes, if◌then◌else◌, ◌>>=◌,
}
use bootchart.Prelude.Int.{ℤ, ◌-ℤ◌}
use bootchart.Tree.Forest.{Forest, num_nodes, get_start_time, get_end_time}
use bootchart.Tree.Prune.{Window, prune}
use bootchart.Tree.Logger.{merge_logger}
use bootchart.Tree.Exploders.{merge_exploders}
use bootchart.Tree.Siblings.{merge_siblings}
use bootchart.Tree.Runs.{merge_runs}
use bootchart.Tree.Sort.{sort}

abbrev pub logger_proc : Text
logger_proc = codes "bootchartd"

abbrev pub exploder_processes : List Text
exploder_processes = codes "hwup" ∷ []

-- The counts of the two status messages.
pub record Counts : Type 0 where
  pub loggers : ℕ
  pub processes : ℕ
  pub exploders : ℕ
  pub threads : ℕ
  pub runs : ℕ

abbrev pub counts_of : ℕ → ℕ → ℕ → ℕ → ℕ → Counts
counts_of loggers processes exploders threads runs = record {
  loggers = loggers;
  processes = processes;
  exploders = exploders;
  threads = threads;
  runs = runs;
}

-- The fields that the rest of the program reads.
pub record ProcessTree (V : Type 0) : Type 0 where
  pub process_tree : Forest V
  pub start_time : ℤ
  pub end_time : ℤ
  pub duration : ℤ
  pub num_proc : ℕ
  pub counts : Counts

module _ {V : Type 0} where
  -- start_time, end_time and duration of the tree as it is built, which `prune` reads.
  unfoldable pub window : ℤ → Forest V → Window
  window sample_period f = record {
    start_time = get_start_time f;
    duration = get_end_time f -ℤ get_start_time f;
    sample_period = sample_period;
  }

  -- Fuel for one pass: more than the processes of the tree that it gets.
  abbrev pub enough : Forest V → ℕ
  enough f = suc (num_nodes f)

  -- The passes under `if prune`.
  unfoldable pub prune_and_merge : Window → Forest V → ℕ → Option (Forest V × Counts)
  prune_and_merge w f loggers = do
    (f1, processes) ← prune (enough f) false w f
    (f2, exploders) ← merge_exploders exploder_processes f1
    (f3, threads) ← merge_siblings (enough f2) f2
    (f4, runs) ← merge_runs (enough f3) f3
    some (f4, counts_of loggers processes exploders threads runs)

  unfoldable pub finish : Forest V → Counts → ProcessTree V
  finish f counts = record {
    process_tree = f;
    start_time = get_start_time f;
    end_time = get_end_time f;
    duration = get_end_time f -ℤ get_start_time f;
    num_proc = num_nodes f;
    counts = counts;
  }

  unfoldable pub arrange : ℤ → Option Text → Bool → Forest V → Option (ProcessTree V)
  unfolding prune_and_merge finish
  arrange sample_period monitored_app pruned f = do
    (f1, loggers) ← merge_logger (enough f) logger_proc monitored_app f
    (f2, counts) ←
        (if pruned
          then prune_and_merge (window sample_period f) f1 loggers
          else some (f1, counts_of loggers 0 0 0 0))
    f3 ← sort (enough f2) f2
    some (finish f3 counts)
