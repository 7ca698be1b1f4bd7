-- ===== src/Tree/Sort.antt =====
-- ProcessTree.sort: every child list is sorted by pid, at every level. The list itself is not.
pub mod Laws
use bootchart.Prelude.{ℕ, zero, suc, Option, none, some, if◌then◌else◌, ◌>>=◌}
use bootchart.Prelude.Int.{leb_ℤ}
use bootchart.Samples.{Process}
use bootchart.Tree.Forest.{Forest, nil, node}

module _ {V : Type 0} where
  -- `child_list.sort(key = lambda p: p.pid)`: a stable sort, here by insertion.
  unfoldable pub insert_by_pid : Process V → Forest V → Forest V → Forest V
  insert_by_pid p c nil = node p c nil
  insert_by_pid p c (node q d r) =
      if leb_ℤ p.pid q.pid then node p c (node q d r) else node q d (insert_by_pid p c r)

  unfoldable pub sort_by_pid : Forest V → Forest V
  sort_by_pid nil = nil
  sort_by_pid (node p c r) = insert_by_pid p c (sort_by_pid r)

  unfoldable pub sort : ℕ → Forest V → Option (Forest V)
  sort zero f = none
  sort (suc n) nil = some nil
  sort (suc n) (node p c r) = do c' ← sort n (sort_by_pid c); r' ← sort n r; some (node p c' r')
