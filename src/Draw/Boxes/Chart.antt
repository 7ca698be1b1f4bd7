-- ===== src/Draw/Boxes/Chart.antt =====
-- The process chart of a whole tree: its boxes stand between its left and right edges, and in the rows of
-- Draw/Rows.
use bootchart.Prelude.{
  ℕ, ◌+◌, ◌*◌, ◌≡◌, refl, ap, ap₂, ◌∙◌, inl, inr, List, [], ◌∷◌, ◌++◌, ltb, Bool-cases, arith,
}
use bootchart.Prelude.Results.{ok}
use bootchart.Prelude.Int.{
  ℤ, pos, ◌+ℤ◌, ◌-ℤ◌, ◌≤ℤ◌, eqb_ℤ, eqb_ℤ_iff, int_laws, min_ℤ-le_left, min_ℤ-le_right,
  max_ℤ-ge_left, max_ℤ-ge_right, parts_of_eq,
}
use bootchart.Samples.{Process, end_time}
use bootchart.Tree.Forest.{Forest, nil, node, processes, num_nodes, get_start_time, get_end_time}
use bootchart.Tree.Times.{first_start, last_end, get_times-processes}
use bootchart.Draw.Rows.{Row, row_of, draw_children, draw_process, draw_roots}
use bootchart.Draw.Sizes.{proc_h}
use bootchart.Draw.Boxes.{
  View, Item, process_box, connection, box_of, box_x, draw_subtrees, draw_trees, draw_processes,
}
use bootchart.Draw.Boxes.Within.{AllWithin, AllRunWithin, draw_trees-AllWithin}

-- The rows of the boxes that are drawn.
unfoldable pub rows_of : List Item → List Row
rows_of [] = []
rows_of (process_box b ∷ items) = record { pid = b.pid; y = b.y } ∷ rows_of items
rows_of (connection ps ∷ items) = rows_of items

rows_of-append : (xs ys : List Item) → rows_of (xs ++ ys) ≡ rows_of xs ++ rows_of ys
unfolding rows_of
rows_of-append [] ys = refl
rows_of-append (process_box b ∷ xs) ys =
    ap (◌∷◌ (record { pid = b.pid; y = b.y })) (rows_of-append xs ys)
rows_of-append (connection ps ∷ xs) ys = rows_of-append xs ys

module _ {V : Type 0} where
  rows_of-draw_subtrees :
      (view : View) (px : ℤ) (py next_y : ℕ) (f : Forest V)
      → rows_of (draw_subtrees view px py next_y f) ≡ draw_children proc_h view.bottom next_y f
  unfolding rows_of draw_subtrees draw_children box_of
  rows_of-draw_subtrees view px py next_y nil = refl
  rows_of-draw_subtrees view px py next_y (node p c r) =
      let x : ℤ = box_x view p in
      let below = rows_of-draw_subtrees view x next_y (next_y + proc_h) c in
      let rest = rows_of-draw_subtrees view px py (next_y + proc_h * num_nodes (node p c nil)) r in
      elim (Bool-cases (ltb view.bottom next_y)) [
        | inl e ↦ rw e refl
        | inr e ↦ rw e (
            ap (◌∷◌ (row_of p next_y)) (
              rows_of-append (draw_subtrees view x next_y (next_y + proc_h) c) _
              ∙ ap₂ ◌++◌ below rest))
      ]

  pub rows_of-draw_trees :
      (view : View) (y : ℕ) (f : Forest V)
      → rows_of (draw_trees view y f) ≡ draw_roots proc_h view.bottom y f
  unfolding rows_of draw_trees draw_roots draw_process box_of
  rows_of-draw_trees view y nil = refl
  rows_of-draw_trees view y (node p c r) =
      let x : ℤ = box_x view p in
      let below = rows_of-draw_subtrees view x y (y + proc_h) c in
      let rest = rows_of-draw_trees view (y + proc_h * num_nodes (node p c nil)) r in
      ap (◌∷◌ (row_of p y))
        (rows_of-append (draw_subtrees view x y (y + proc_h) c) _ ∙ ap₂ ◌++◌ below rest)

  -- No run is of a negative length.
  abbrev pub AllRun : List (Process V) → Type 0
  AllRun [] = Unit
  AllRun (p ∷ ps) = (pos 0 ≤ℤ p.duration) × AllRun ps

  AllRun-AllRunWithin :
      (view : View) (ps : List (Process V))
      → view.start_time ≤ℤ first_start ps
      → last_end ps ≤ℤ view.start_time +ℤ view.duration
      → AllRun ps
      → AllRunWithin view ps
  unfolding first_start last_end end_time
  AllRun-AllRunWithin view [] after before h = tt
  AllRun-AllRunWithin view (p ∷ ps) after before h =
      let first = min_ℤ-le_left p.start_time (first_start ps) in
      let rest = min_ℤ-le_right p.start_time (first_start ps) in
      let last = max_ℤ-ge_left (end_time p) (last_end ps) in
      let later = max_ℤ-ge_right (end_time p) (last_end ps) in
      (
        (omega (int_laws, first, after), h.0, omega (int_laws, last, before)),
        AllRun-AllRunWithin view ps (omega (arith, rest, after)) (omega (arith, later, before)) h.1,
      )

  pub draw_processes-ok :
      (view : View) (y : ℕ) (f : Forest V)
      → ¬ (view.duration ≡ pos 0)
      → draw_processes view y f ≡ ok (draw_trees view y f)
  unfolding draw_processes draw_trees
  draw_processes-ok view y nil some_time = refl
  draw_processes-ok view y (node p c r) some_time =
      elim (Bool-cases (eqb_ℤ view.duration (pos 0))) [
        | inl e ↦ absurd (some_time ((eqb_ℤ_iff view.duration (pos 0)).0 e))
        | inr e ↦ rw e refl
      ]

  -- With the times of the tree, of which no process has a negative duration and which has a duration at
  -- all, the chart of a tree is drawn: every box stands between the left and the right edge, its label
  -- within it or beside it and not over the right edge, every connection is made of horizontal and
  -- vertical pieces, and the boxes stand in the rows of `draw_roots`.
  pub draw_processes-AllWithin :
      (view : View) (y : ℕ) (f : Forest V)
      → pos 0 ≤ℤ view.rect.x
      → pos 0 ≤ℤ view.rect.w
      → view.start_time ≡ get_start_time f
      → view.duration ≡ get_end_time f -ℤ get_start_time f
      → ¬ (view.duration ≡ pos 0)
      → AllRun (processes f)
      → (items : List Item) × (draw_processes view y f ≡ ok items)
        × AllWithin view items
        × (rows_of items ≡ draw_roots proc_h view.bottom y f)
  unfolding draw_processes
  draw_processes-AllWithin view y f left wide start duration some_time run =
      let (first, last) = get_times-processes f in
      let inside : AllRunWithin view (processes f) =
        AllRun-AllRunWithin view (processes f)
          (omega (int_laws, parts_of_eq start, parts_of_eq first))
          (omega (int_laws, parts_of_eq start, parts_of_eq duration, parts_of_eq last)) run in
      (
        draw_trees view y f,
        draw_processes-ok view y f some_time,
        draw_trees-AllWithin view left wide y f inside,
        rows_of-draw_trees view y f,
      )
