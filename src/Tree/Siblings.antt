-- ===== src/Tree/Siblings.antt =====
-- ProcessTree.merge_siblings: neighbours of one list with the same command line (threads) become one
-- process, at every level.
pub mod Laws
use bootchart.Prelude.{ℕ, zero, suc, ◌+◌, Option, none, some, text_eq, if◌then◌else◌, ◌>>=◌}
use bootchart.Samples.{merge_processes}
use bootchart.Tree.Forest.{Forest, nil, node, append}

module _ {V : Type 0} where
  -- The loop from `idx` on, with the number of processes merged away; the last process of the list
  -- is the clause after the loop. After a merge the index stays, and `p` is compared again.
  unfoldable pub merge_siblings : ℕ → Forest V → Option (Forest V × ℕ)
  merge_siblings zero f = none
  merge_siblings (suc n) nil = some (nil, 0)
  merge_siblings (suc n) (node p c nil) = do (c', k) ← merge_siblings n c; some (node p c' nil, k)
  merge_siblings (suc n) (node p c (node q d r)) =
      let merged : Option (Forest V × ℕ) = (do
        (c', k) ← merge_siblings n (append c d)
        (f, m) ← merge_siblings n (node (merge_processes p q) c' r)
        some (f, 1 + k + m)) in
      let apart : Option (Forest V × ℕ) = (do
        (c', k) ← merge_siblings n c
        (r', m) ← merge_siblings n (node q d r)
        some (node p c' r', k + m)) in
      if text_eq q.cmd p.cmd then merged else apart
