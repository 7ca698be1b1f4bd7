-- ===== src/Tree/Logger.antt =====
-- ProcessTree.merge_logger: the children of the boot logger are merged into it. The loggers are
-- found first, parents before children (filter_subtree), and a merge changes no command line.
pub mod Laws
use bootchart.Prelude.{
  ℕ, zero, suc, ◌+◌, Bool, true, false, Option, none, some, [], ◌∷◌, Text, text_eq, if◌then◌else◌,
  ◌>>=◌,
}
use bootchart.Samples.{Process, merge_processes}
use bootchart.Tree.Forest.{Forest, nil, node}

-- `monitored_app and child.cmd == monitored_app`; an empty name is false.
unfoldable pub is_monitored : Option Text → Text → Bool
is_monitored none cmd = false
is_monitored (some []) cmd = false
is_monitored (some (a ∷ app)) cmd = text_eq cmd (a ∷ app)

-- The logger after the loop over its children, the children that stay, those that are taken out,
-- and their number.
pub record Sweep (V : Type 0) : Type 0 where
  pub logger : Process V
  pub kept : Forest V
  pub removed : Forest V
  pub count : ℕ

module _ {V : Type 0} where
  abbrev keep : Process V → Forest V → Sweep V → Sweep V
  keep q d s = record s { kept = node q d s.kept }

  abbrev take_out : Process V → Forest V → Sweep V → Sweep V
  take_out q d s = record s { removed = node q d s.removed; count = s.count + 1 }

  -- `for child in p.child_list: ... p.child_list.remove(child)`: the loop goes on at the next index
  -- of a list that has become shorter, so the child behind a removed one is not looked at.
  unfoldable pub sweep : Option Text → Process V → Forest V → Sweep V
  sweep app p nil = record { logger = p; kept = nil; removed = nil; count = 0 }
  sweep app p (node q d nil) =
      if is_monitored app q.cmd
      then record { logger = p; kept = node q d nil; removed = nil; count = 0 }
      else record { logger = merge_processes p q; kept = nil; removed = node q d nil; count = 1 }
  sweep app p (node q d (node s e t)) =
      let stay : Sweep V = keep q d (sweep app p (node s e t)) in
      let gone : Sweep V = take_out q d (keep s e (sweep app (merge_processes p q) t)) in
      if is_monitored app q.cmd then stay else gone

  -- A logger below a removed child is a logger all the same: what it takes over leaves the tree
  -- with it, and is counted.
  unfoldable pub merge_logger : ℕ → Text → Option Text → Forest V → Option (Forest V × ℕ)
  merge_logger zero name app f = none
  merge_logger (suc n) name app nil = some (nil, 0)
  merge_logger (suc n) name app (node p c r) =
      let s : Sweep V = sweep app p c in
      let logger : Option (Forest V × ℕ) = (do
        (c', k) ← merge_logger n name app s.kept
        (x, m) ← merge_logger n name app s.removed
        (r', j) ← merge_logger n name app r
        some (node s.logger c' r', s.count + k + m + j)) in
      let other : Option (Forest V × ℕ) = (do
        (c', k) ← merge_logger n name app c
        (r', m) ← merge_logger n name app r
        some (node p c' r', k + m)) in
      if text_eq p.cmd name then logger else other
