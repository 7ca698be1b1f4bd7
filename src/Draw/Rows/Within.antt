-- ===== src/Draw/Rows/Within.antt =====
-- The rows of a forest stand between two heights.
use bootchart.Prelude.{ℕ, ◌+◌, ◌*◌, ◌≤◌, inl, inr, List, [], ◌∷◌, ◌++◌, Bool-cases, ltb, arith}
use bootchart.Samples.{Process}
use bootchart.Tree.Forest.{Forest, nil, node, num_nodes, num_nodes-node, num_nodes-nil}
use bootchart.Draw.Sizes.{proc_h}
use bootchart.Draw.Rows.{Row, row_of, draw_children, draw_process, draw_roots}

-- Every row stands between two heights.
abbrev pub Within : ℕ → ℕ → List Row → Type 0
Within top bottom [] = Unit
Within top bottom (r ∷ rs) = (top ≤ r.y) × (r.y + proc_h ≤ bottom) × Within top bottom rs

pub Within-append :
    (top bottom : ℕ) (rs ss : List Row)
    → Within top bottom rs
    → Within top bottom ss
    → Within top bottom (rs ++ ss)
Within-append top bottom [] ss h k = k
Within-append top bottom (r ∷ rs) ss (a, b, h) k = (a, b, Within-append top bottom rs ss h k)

pub Within-wider : (t u b c : ℕ) (rs : List Row) → u ≤ t → b ≤ c → Within t b rs → Within u c rs
Within-wider t u b c [] h k w = tt
Within-wider t u b c (r ∷ rs) h k (a, d, w) =
    (omega (arith, h, a), omega (arith, k, d), Within-wider t u b c rs h k w)

module _ {V : Type 0} where
  -- A row, the rows below it, and those of the processes next to it.
  node-Within :
      (y : ℕ) (p : Process V) (c r : Forest V) (below rest : List Row)
      → Within (y + proc_h) (y + proc_h + proc_h * num_nodes c) below
      → (let z = y + proc_h * num_nodes (node p c nil) in Within z (z + proc_h * num_nodes r) rest)
      → Within y (y + proc_h * num_nodes (node p c r)) (row_of p y ∷ (below ++ rest))
  node-Within y p c r below rest h k =
      let z = y + proc_h * num_nodes (node p c nil) in
      let bottom = y + proc_h * num_nodes (node p c r) in
      let all = num_nodes-node p c r in
      let first = num_nodes-node p c nil in
      let none' = num_nodes-nil V in
      (
        omega arith,
        omega (arith, all),
        Within-append y bottom below rest
            (Within-wider (y + proc_h) y (y + proc_h + proc_h * num_nodes c) bottom below
              (omega arith) (omega (arith, all)) h)
            (Within-wider z y (z + proc_h * num_nodes r) bottom rest (omega arith)
              (omega (arith, all, first, none')) k),
      )

  draw_children-Within :
      (bottom y : ℕ) (f : Forest V)
      → Within y (y + proc_h * num_nodes f) (draw_children proc_h bottom y f)
  unfolding draw_children
  draw_children-Within bottom y nil = tt
  draw_children-Within bottom y (node p c r) = elim (Bool-cases (ltb bottom y)) [
    | inl e ↦ rw e tt
    | inr e ↦ rw e (
        node-Within y p c r (draw_children proc_h bottom (y + proc_h) c) _
          (draw_children-Within bottom (y + proc_h) c)
          (draw_children-Within bottom (y + proc_h * num_nodes (node p c nil)) r))
  ]

  pub draw_roots-Within :
      (bottom y : ℕ) (f : Forest V)
      → Within y (y + proc_h * num_nodes f) (draw_roots proc_h bottom y f)
  unfolding draw_roots draw_process
  draw_roots-Within bottom y nil = tt
  draw_roots-Within bottom y (node p c r) =
      node-Within y p c r (draw_children proc_h bottom (y + proc_h) c) _
        (draw_children-Within bottom (y + proc_h) c)
        (draw_roots-Within bottom (y + proc_h * num_nodes (node p c nil)) r)
