-- ===== src/Tree/Forest.antt =====
-- The data of pybootchartgui/process_tree.py: a list of processes, each with its `child_list`.
-- Every process object stands in one such list (ProcessTree.build), so the lists form a forest.
use bootchart.Prelude.{
  ℕ, ◌+◌, Option, some, ◌≡◌, List, [], ◌∷◌, ◌++◌, length, length-append, sym, arith,
}
use bootchart.Prelude.Int.{ℤ, pos, negsuc, min_ℤ, max_ℤ}
use bootchart.Samples.{Process, end_time}

-- `node p children rest` is the list whose first process `p` has the list `children`.
pub data Forest (V : Type 0) : Type 0 where
  nil : Forest V
  node : Process V → Forest V → Forest V → Forest V

-- A process with its parent, `none` for a root.
abbrev pub Link : Type 0 → Type 0
Link V = Option (Process V) × Process V

module _ {V : Type 0} where
  -- len(process_list)
  unfoldable pub len : Forest V → ℕ
  len nil = 0
  len (node p c r) = len r + 1

  -- The loop of `num_nodes` counts below each process, then the processes of the list are added.
  unfoldable pub nodes_below : Forest V → ℕ
  unfolding len
  nodes_below nil = 0
  nodes_below (node p c r) = nodes_below c + len c + nodes_below r

  -- ProcessTree.num_nodes
  unfoldable pub num_nodes : Forest V → ℕ
  unfolding nodes_below
  num_nodes f = nodes_below f + len f

  -- list + list
  unfoldable pub append : Forest V → Forest V → Forest V
  append nil g = g
  append (node p c r) g = node p c (append r g)

  -- Every process of the forest, a parent before its children.
  unfoldable pub processes : Forest V → List (Process V)
  processes nil = []
  processes (node p c r) = p ∷ processes c ++ processes r

  -- Every process of the forest, with its parent.
  unfoldable pub links : Option (Process V) → Forest V → List (Link V)
  links parent nil = []
  links parent (node p c r) = (parent, p) ∷ (links (some p) c ++ links parent r)

  -- ProcessTree.get_start_time: `min` over the list, with 100000000 where there is no process.
  unfoldable pub get_start_time : Forest V → ℤ
  get_start_time nil = pos 100000000
  get_start_time (node p c nil) = min_ℤ p.start_time (get_start_time c)
  get_start_time (node p c (node q d s)) =
      min_ℤ (min_ℤ p.start_time (get_start_time c)) (get_start_time (node q d s))

  -- ProcessTree.get_end_time
  unfoldable pub get_end_time : Forest V → ℤ
  unfolding end_time
  get_end_time nil = negsuc 99999999
  get_end_time (node p c nil) = max_ℤ (end_time p) (get_end_time c)
  get_end_time (node p c (node q d s)) =
      max_ℤ (max_ℤ (end_time p) (get_end_time c)) (get_end_time (node q d s))

  -- ProcessTree.get_max_pid
  unfoldable pub get_max_pid : Forest V → ℤ
  get_max_pid nil = negsuc 99999999
  get_max_pid (node p c nil) = max_ℤ p.pid (get_max_pid c)
  get_max_pid (node p c (node q d s)) =
      max_ℤ (max_ℤ p.pid (get_max_pid c)) (get_max_pid (node q d s))

  pub num_nodes-node :
      (p : Process V) (c r : Forest V) → num_nodes (node p c r) ≡ num_nodes c + num_nodes r + 1
  unfolding num_nodes
  num_nodes-node p c r = omega arith

pub num_nodes-nil : (V : Type 0) → num_nodes {V = V} nil ≡ 0
unfolding num_nodes
num_nodes-nil V = omega arith

module _ {V : Type 0} where
  pub num_nodes-append : (f g : Forest V) → num_nodes (append f g) ≡ num_nodes f + num_nodes g
  unfolding append
  num_nodes-append nil g = omega (arith, num_nodes-nil V)
  num_nodes-append (node p c r) g =
      omega (arith, num_nodes-node p c (append r g), num_nodes-node p c r, num_nodes-append r g)

  pub length-processes : (f : Forest V) → length (processes f) ≡ num_nodes f
  unfolding processes
  length-processes nil = sym (num_nodes-nil V)
  length-processes (node p c r) = omega (
    arith,
    num_nodes-node p c r,
    length-append (processes c) (processes r),
    length-processes c,
    length-processes r,
  )
