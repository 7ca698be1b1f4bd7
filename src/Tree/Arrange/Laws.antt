-- ===== src/Tree/Arrange/Laws.antt =====
-- The passes together.
use bootchart.Prelude.{ℕ, suc, ◌+◌, ◌≤◌, ◌≡◌, refl, Bool, true, false, arith, Option, some, Text}
use bootchart.Prelude.Int.{ℤ}
use bootchart.Tree.Forest.{Forest, num_nodes}
use bootchart.Tree.Prune.{Window}
use bootchart.Tree.Prune.Laws.{prune-Prunes}
use bootchart.Tree.Logger.Laws.{merge_logger-count}
use bootchart.Tree.Exploders.{merge_exploders_unchanged}
use bootchart.Tree.Siblings.Laws.{merge_siblings-Merges}
use bootchart.Tree.Runs.Laws.{merge_runs-Merges}
use bootchart.Tree.Sort.Laws.{HasSortedChildren, sort-HasSortedChildren}
use bootchart.Tree.Arrange.{
  Counts, counts_of, ProcessTree, window, prune_and_merge, finish, arrange, logger_proc,
  exploder_processes,
}

-- The processes that the passes report as gone.
abbrev pub reported : Counts → ℕ
reported k = k.loggers + k.processes + k.exploders + k.threads + k.runs

module _ {V : Type 0} where
  prune_and_merge-count :
      (w : Window) (f : Forest V) (loggers : ℕ)
      → (out : Forest V × Counts) × (prune_and_merge w f loggers ≡ some out)
        × (num_nodes f + loggers ≡ num_nodes out.0 + reported out.1)
  unfolding prune_and_merge
  prune_and_merge-count w f loggers =
      let ((f1, k1), run1, h1) = prune-Prunes (suc (num_nodes f)) false w f (omega arith) in
      let ((f3, k3), run3, h3, t3) = merge_siblings-Merges (suc (num_nodes f1)) f1 (omega arith) in
      let ((f4, k4), run4, h4, t4, c4) = merge_runs-Merges (suc (num_nodes f3)) f3 (omega arith) in
      (
        (f4, counts_of loggers k1 0 k3 k4),
        rw (run1, merge_exploders_unchanged exploder_processes f1, run3, run4) refl,
        omega (arith, h1.counted, h3.counted, h4.counted),
      )

  -- The whole arrangement returns, whatever the tree. The children of every process ascend by pid,
  -- and the processes that are left and those that are reported as gone are at most the processes
  -- of the built tree.
  pub arrange_total :
      (sample_period : ℤ) (monitored_app : Option Text) (pruned : Bool) (f : Forest V)
      → (t : ProcessTree V) × (arrange sample_period monitored_app pruned f ≡ some t)
        × HasSortedChildren t.process_tree
        × (t.num_proc + reported t.counts ≤ num_nodes f)
  unfolding arrange
  arrange_total sp app false f =
      let ((f1, k), run, le, l) =
        merge_logger-count (suc (num_nodes f)) logger_proc app f (omega arith) in
      let (f3, run3, s, ls, e, n) = sort-HasSortedChildren (suc (num_nodes f1)) f1 (omega arith) in
      (finish f3 (counts_of k 0 0 0 0), rw (run, run3) refl, s, omega (arith, n, le))
  arrange_total sp app true f =
      let ((f1, k), run, le, l) =
        merge_logger-count (suc (num_nodes f)) logger_proc app f (omega arith) in
      let ((f2, counts), run2, eq) = prune_and_merge-count (window sp f) f1 k in
      let (f3, run3, s, ls, e, n) = sort-HasSortedChildren (suc (num_nodes f2)) f2 (omega arith) in
      (finish f3 counts, rw (run, run2, run3) refl, s, omega (arith, n, le, eq))
