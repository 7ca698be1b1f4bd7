-- ===== src/Examples/Tree.antt =====
-- process_tree.py on a small tree.
use mathlib.Core.List.{Perm}
use bootchart.Prelude.{
  true, false, ℕ, ◌/◌, ◌<◌, ◌≡◌, false, Option, none, some, [], ◌∷◌, Text, codes, arith,
}
use bootchart.Prelude.Int.{ℤ, pos}
use bootchart.Samples.{Process, ProcessSample, new_process}
use bootchart.Tree.Forest.{
  Forest, nil, node, num_nodes, links, processes, get_start_time, get_end_time, len,
}
use bootchart.Tree.Times.{get_times-processes, first_start, last_end}
use bootchart.Tree.Prune.{Window, prune}
use bootchart.Tree.Prune.Laws.{Prunes, prune-Prunes}
use bootchart.Tree.Merges.{Merges}
use bootchart.Tree.Siblings.{merge_siblings}
use bootchart.Tree.Siblings.Laws.{HasNoTwins, merge_siblings-Merges}
use bootchart.Tree.Runs.{merge_runs}
use bootchart.Tree.Runs.Laws.{HasNoRuns, cmds, merge_runs-Merges}
use bootchart.Tree.Logger.{sweep}
use bootchart.Tree.Logger.Laws.{every_second, sweep-half}
use bootchart.Tree.Exploders.{merge_exploders, merge_exploders_unchanged}
use bootchart.Tree.Sort.{sort}
use bootchart.Tree.Sort.Laws.{HasSortedChildren, pids, sort-HasSortedChildren}
use bootchart.Tree.Arrange.{exploder_processes}

abbrev sample_at : ℕ → ProcessSample ℤ
sample_at t = record {
  time = pos t;
  state = codes "R";
  cpu_sample = record { time = none; user = pos 5; sys = pos 0; io = pos 0; swap = pos 0 };
}

abbrev proc : ℕ → Text → ℕ → ℕ → Process ℤ
unfolding new_process
proc pid cmd start duration =
    let p : Process ℤ = new_process (pos pid) cmd (pos 1000) (pos start) in
    record p { duration = pos duration; samples = sample_at start ∷ [] }

abbrev init : Process ℤ
unfolding new_process
init = proc 1000 (codes "init") 0 500

-- Two threads, a run, the logger with three children, and a short-lived process.
abbrev threads : Forest ℤ
unfolding new_process
threads =
    node (proc 5000 (codes "udevd") 20 300) nil
      (node (proc 6000 (codes "udevd") 10 200) nil (node (proc 7000 (codes "cat") 30 1) nil nil))

abbrev loggers : Forest ℤ
unfolding new_process
loggers =
    node (proc 9000 (codes "sleep") 40 9) nil
      (node (proc 9500 (codes "cat") 41 9) nil (node (proc 9600 (codes "tail") 42 9) nil nil))

abbrev tree : Forest ℤ
unfolding new_process
tree =
    node init
      (node (proc 8000 (codes "bootchartd") 5 450) loggers (
        node (proc 4000 (codes "rc") 15 400) (node (proc 4500 (codes "rc") 16 390) threads nil)
          nil))
      nil

abbrev window : Window
window = record { start_time = pos 0; duration = pos 500; sample_period = pos 2 }

few : num_nodes tree < 20
unfolding num_nodes new_process
few = omega arith

prune-Prunes_example :
    (out : Forest ℤ × ℕ) × (prune 20 false window tree ≡ some out) × Prunes false window tree out
prune-Prunes_example = prune-Prunes 20 false window tree few

merge_siblings-Merges_example :
    (out : Forest ℤ × ℕ) × (merge_siblings 20 tree ≡ some out)
    × Merges tree out.0 out.1
    × HasNoTwins out.0
merge_siblings-Merges_example = merge_siblings-Merges 20 tree few

merge_runs-Merges_example :
    (out : Forest ℤ × ℕ) × (merge_runs 20 tree ≡ some out)
    × Merges tree out.0 out.1
    × HasNoRuns out.0
    × (cmds out.0 ≡ cmds tree)
merge_runs-Merges_example = merge_runs-Merges 20 tree few

sort-HasSortedChildren_example :
    (g : Forest ℤ) × (sort 20 tree ≡ some g)
    × HasSortedChildren g
    × ((par : Option (Process ℤ)) → Perm (links par g) (links par tree))
    × (pids g ≡ pids tree)
    × (num_nodes g ≡ num_nodes tree)
sort-HasSortedChildren_example = sort-HasSortedChildren 20 tree few

get_times-processes_example :
    (get_start_time tree ≡ first_start (processes tree))
    × (get_end_time tree ≡ last_end (processes tree))
get_times-processes_example = get_times-processes tree

sweep-half_example :
    ((sweep none init loggers).removed ≡ every_second true loggers)
    × ((sweep none init loggers).kept ≡ every_second false loggers)
    × ((sweep none init loggers).count ≡ len (every_second true loggers))
    × (len (sweep none init loggers).kept ≡ len loggers / 2)
sweep-half_example = sweep-half init loggers

merge_exploders_unchanged_example : merge_exploders exploder_processes tree ≡ some (tree, 0)
merge_exploders_unchanged_example = merge_exploders_unchanged exploder_processes tree
