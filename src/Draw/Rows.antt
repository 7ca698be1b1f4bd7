-- ===== src/Draw/Rows.antt =====
-- The rows of the process chart (draw_process_bar_chart and draw_processes_recursively of draw.py): the
-- vertical coordinate of every process that is drawn. The coordinates are whole numbers.
pub mod Laws
pub mod Within
use bootchart.Prelude.{ℕ, ◌+◌, ◌*◌, List, [], ◌∷◌, ◌++◌, ltb, if◌then◌else◌}
use bootchart.Prelude.Int.{ℤ}
use bootchart.Samples.{Process}
use bootchart.Tree.Forest.{Forest, nil, node, num_nodes}

pub record Row : Type 0 where
  pub pid : ℤ
  pub y : ℕ

module _ {V : Type 0} where
  abbrev pub row_of : Process V → ℕ → Row
  row_of p y = record { pid = p.pid; y = y }

  -- The loop over the children of a process that is drawn, which ends at the first row below the clip;
  -- `bottom` is `clip[1] + clip[3]`.
  unfoldable pub draw_children : ℕ → ℕ → ℕ → Forest V → List Row
  draw_children proc_h bottom next_y nil = []
  draw_children proc_h bottom next_y (node p c r) =
      let below : List Row = draw_children proc_h bottom (next_y + proc_h) c in
      let rest : List Row =
        draw_children proc_h bottom (next_y + proc_h * num_nodes (node p c nil)) r in
      if ltb bottom next_y then [] else row_of p next_y ∷ (below ++ rest)

  -- draw_processes_recursively: a process, and then its children.
  unfoldable pub draw_process : ℕ → ℕ → ℕ → Process V → Forest V → List Row
  unfolding draw_children
  draw_process proc_h bottom y p c = row_of p y ∷ draw_children proc_h bottom (y + proc_h) c

  -- The loop over the roots, which are all drawn.
  unfoldable pub draw_roots : ℕ → ℕ → ℕ → Forest V → List Row
  unfolding draw_process
  draw_roots proc_h bottom y nil = []
  draw_roots proc_h bottom y (node p c r) =
      draw_process proc_h bottom y p c
      ++ draw_roots proc_h bottom (y + proc_h * num_nodes (node p c nil)) r
