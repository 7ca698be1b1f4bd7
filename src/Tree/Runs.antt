-- ===== src/Tree/Runs.antt =====
-- ProcessTree.merge_runs: a process whose only child has its command line takes the child over.
pub mod Laws
use bootchart.Prelude.{ℕ, zero, suc, ◌+◌, Option, none, some, text_eq, if◌then◌else◌, ◌>>=◌}
use bootchart.Samples.{Process, merge_processes}
use bootchart.Tree.Forest.{Forest, nil, node}

module _ {V : Type 0} where
  -- `len(p.child_list) == 1 and p.child_list[0].cmd == p.cmd`, with the child and its own children.
  unfoldable pub run_child : Process V → Forest V → Option (Process V × Forest V)
  run_child p nil = none
  run_child p (node q d nil) = if text_eq q.cmd p.cmd then some (q, d) else none
  run_child p (node q d (node s e t)) = none

  -- The loop from `idx` on, with the number of processes merged away. After a merge `p` is looked at
  -- again.
  unfoldable pub merge_runs : ℕ → Forest V → Option (Forest V × ℕ)
  merge_runs zero f = none
  merge_runs (suc n) nil = some (nil, 0)
  merge_runs (suc n) (node p c r) = elim (run_child p c) [
    | some (child, d) ↦ do
      (f, k) ← merge_runs n (node (merge_processes p child) d r)
      some (f, 1 + k)
    | none ↦ do (c', k) ← merge_runs n c; (r', m) ← merge_runs n r; some (node p c' r', k + m)
  ]
