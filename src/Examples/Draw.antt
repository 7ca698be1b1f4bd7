-- ===== src/Examples/Draw.antt =====
-- draw.py on a small tree.
use bootchart.Prelude.{ℕ, ◌≡◌, ◌↔◌, true, codes}
use bootchart.Prelude.Int.{ℤ, pos}
use bootchart.Samples.{Process, new_process}
use bootchart.Tree.Forest.{Forest, nil, node, processes}
use bootchart.Draw.Clip.{Rect, clip_visible}
use bootchart.Draw.Clip.Laws.{Inside, clip_visible_iff}
use bootchart.Draw.Rows.{draw_children}
use bootchart.Draw.Rows.Laws.{visible, rows_from, draw_children-visible}

abbrev proc : ℕ → Process ℤ
unfolding new_process
proc pid = new_process (pos pid) (codes "sh") (pos 1000) (pos 0)

abbrev tree : Forest ℤ
tree =
    node (proc 1000) (node (proc 2000) (node (proc 3000) nil nil) (node (proc 4000) nil nil))
      (node (proc 5000) nil nil)

draw_children-visible_example :
    draw_children 16 40 20 tree ≡ visible 40 (rows_from 16 20 (processes tree))
draw_children-visible_example = draw_children-visible 16 40 20 tree

abbrev clip : Rect
clip = record { x = pos 0; y = pos 0; w = pos 100; h = pos 50 }

abbrev chart : Rect
chart = record { x = pos 10; y = pos 40; w = pos 300; h = pos 200 }

clip_visible_iff_example :
    (clip_visible clip chart ≡ true) ↔ ((x : ℤ) × (y : ℤ) × Inside clip x y × Inside chart x y)
clip_visible_iff_example = clip_visible_iff clip chart
