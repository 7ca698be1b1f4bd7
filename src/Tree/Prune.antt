-- ===== src/Tree/Prune.antt =====
-- ProcessTree.prune: idle background processes and short-lived processes leave the tree.
pub mod Laws
use bootchart.Prelude.{
  ℕ, zero, suc, ◌+◌, ◌*◌, ◌≡◌, Bool, true, false, not, ◌&&◌, ◌||◌, Option, none, some, ◌==◌,
  if◌then◌else◌, ◌>>=◌,
}
use bootchart.Prelude.Int.{ℤ, pos, ◌+ℤ◌, ◌*ℤ◌, leb_ℤ, ltb_ℤ}
use bootchart.Samples.{Process, end_time}
use bootchart.Tree.Forest.{Forest, nil, node, num_nodes}

-- The fields of the tree that `prune` reads.
pub record Window : Type 0 where
  pub start_time : ℤ
  pub duration : ℤ
  pub sample_period : ℤ

-- `not p.active`: None and False alike.
unfoldable pub is_inactive : Option Bool → Bool
is_inactive none = true
is_inactive (some a) = not a

module _ {V : Type 0} where
  -- len(p.child_list) == 0
  unfoldable pub is_childless : Forest V → Bool
  is_childless nil = true
  is_childless (node p c r) = false

  -- is_idle_background_process_without_children, of a process and its child list; the test
  -- `p.duration > 0.9 * self.duration` is between whole numbers.
  unfoldable pub is_idle : Window → Process V → Forest V → Bool
  is_idle w p c =
      is_inactive p.active
      && leb_ℤ (w.start_time +ℤ w.duration) (end_time p)
      && ltb_ℤ w.start_time p.start_time
      && ltb_ℤ (pos 9 *ℤ w.duration) (pos 10 *ℤ p.duration)
      && (num_nodes c == 0)

  unfoldable pub is_short_lived : Window → Process V → Bool
  is_short_lived w p = leb_ℤ p.duration (pos 2 *ℤ w.sample_period)

  unfoldable pub is_pruned : Window → Process V → Forest V → Bool
  is_pruned w p c = is_idle w p c || is_short_lived w p

  -- Whether the loop takes `p` out: the branch under `parent != None or len(p.child_list) == 0`.
  unfoldable pub leaves_tree : Bool → Window → Process V → Forest V → Bool
  leaves_tree has_parent w p c = (has_parent || is_childless c) && is_pruned w p c

  -- `for c in p.child_list: process_subtree.insert(idx, c)`: the children come in reverse order.
  unfoldable pub insert_children : Forest V → Forest V → Forest V
  insert_children nil r = r
  insert_children (node q d s) r = insert_children s (node q d r)

  -- The loop from `idx` on, with the number of processes removed. Each round or call uses one unit
  -- of fuel; `none` means that it ran out.
  unfoldable pub prune : ℕ → Bool → Window → Forest V → Option (Forest V × ℕ)
  prune zero has_parent w f = none
  prune (suc n) has_parent w nil = some (nil, 0)
  prune (suc n) has_parent w (node p c r) =
      let removed : Option (Forest V × ℕ) = (do
        (f, k) ← prune n has_parent w (insert_children c r)
        some (f, k + 1)) in
      let kept : Option (Forest V × ℕ) = (do
        (c', k) ← prune n true w c
        (r', m) ← prune n has_parent w r
        some (node p c' r', k + m)) in
      if leaves_tree has_parent w p c then removed else kept
