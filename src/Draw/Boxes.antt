-- ===== src/Draw/Boxes.antt =====
-- draw_processes_recursively, draw_label_in_box and draw_process_connecting_lines of draw.py: the box and
-- the label of every process, and the lines to its parent. A horizontal coordinate is a number of
-- units, of which a pixel has `pixel`; a vertical one is a number of pixels.
pub mod Laws
pub mod Within
pub mod Chart
use bootchart.Prelude.{
  ℕ, suc, ◌+◌, ◌*◌, ◌/◌, Bool, true, false, not, ◌&&◌, ◌||◌, List, [], ◌∷◌, ◌++◌, Text, codes, ltb,
  if◌then◌else◌,
}
use bootchart.Prelude.Results.{Result, ok, err, zero_division}
use bootchart.Prelude.Int.{ℤ, pos, negsuc, ◌+ℤ◌, ◌-ℤ◌, ◌*ℤ◌, ltb_ℤ, eqb_ℤ, floor_div}
use bootchart.Prelude.Words.{join}
use bootchart.Prelude.Decimal.{str}
use bootchart.Samples.{Process}
use bootchart.Tree.Forest.{Forest, nil, node, num_nodes}
use bootchart.Draw.Clip.{Rect}
use bootchart.Draw.Sizes.{proc_h}

-- The options and the extents that the boxes depend on: the chart's rectangle, the times of the tree,
-- the lower end of the clip, and the width of a text in pixels.
pub record View : Type 0 where
  pub rect : Rect
  pub start_time : ℤ
  pub duration : ℤ
  pub bottom : ℕ
  pub show_all : Bool
  pub show_pid : Bool
  pub text_width : Text → ℕ

-- A text from `start`, in halves of a unit, of a width in pixels.
pub record Label : Type 0 where
  pub text : Text
  pub start : ℤ
  pub width : ℕ
  pub y : ℕ

pub record Box : Type 0 where
  pub pid : ℤ
  pub x : ℤ
  pub y : ℕ
  pub w : ℤ
  pub label : Label

pub record Point : Type 0 where
  pub x : ℤ
  pub y : ℤ

pub data Item : Type 0 where
  process_box : Box → Item
  connection : List Point → Item

abbrev point : ℤ → ℤ → Point
point x y = record { x = x; y = y }

-- draw_label_in_box, with twice `label_x`: in the middle of the box, or behind it where the box is too
-- narrow; before it where the label would pass `maxx`.
unfoldable pub middle_or_behind : ℤ → ℤ → ℤ → ℤ → ℤ
middle_or_behind pixel label_w x w =
    if ltb_ℤ w (label_w +ℤ pos 10 *ℤ pixel)
    then pos 2 *ℤ (x +ℤ w +ℤ pos 5 *ℤ pixel)
    else pos 2 *ℤ x +ℤ w -ℤ label_w

unfoldable pub draw_label_in_box : ℤ → ℤ → ℤ → ℤ → ℤ → ℤ
unfolding middle_or_behind
draw_label_in_box pixel label_w x w maxx =
    let label_x : ℤ = middle_or_behind pixel label_w x w in
    if ltb_ℤ (pos 2 *ℤ maxx) (label_x +ℤ pos 2 *ℤ label_w)
    then pos 2 *ℤ (x -ℤ label_w -ℤ pos 5 *ℤ pixel)
    else label_x

-- draw_process_connecting_lines
unfoldable pub draw_process_connecting_lines : ℤ → ℤ → ℕ → ℤ → ℕ → List Point
draw_process_connecting_lines pixel px py x y =
    let apart : ℤ = px -ℤ x in
    let middle : ℤ = pos (y + proc_h / 2) in
    let beside : ℤ = px -ℤ pos 3 *ℤ pixel in
    let above : ℤ = pos py -ℤ pos (proc_h / 4) in
    if ltb_ℤ apart (pos 3 *ℤ pixel) && ltb_ℤ (pos 0 -ℤ apart) (pos 3 *ℤ pixel)
    then point x middle ∷ point beside middle ∷ point beside above ∷ point px above ∷ []
    else point x middle ∷ point px middle ∷ point px (pos py) ∷ []

module _ {V : Type 0} where
  -- `cmdString`; a pid is whole here.
  unfoldable pub label_of : View → Process V → Text
  label_of view p =
      let name : Text = if not view.show_all then p.cmd else [] in
      let with_pid : Text =
        if (view.show_pid || view.show_all) && not (eqb_ℤ p.pid (pos 0))
        then name ++ codes " [" ++ str (floor_div p.pid 1000) ++ codes "]"
        else name in
      let with_args : Text = elim p.args [
        | [] ↦ with_pid ++ codes " " ++ p.exe
        | a ∷ as' ↦ with_pid ++ codes " '" ++ join (codes "' '") (a ∷ as') ++ codes "'"
      ] in
      if view.show_all then with_args else with_pid

-- `n / duration` in units: a pixel has as many as the duration is long.
unfoldable pub pixel_of : ℤ → ℤ
pixel_of duration = elim duration [ pos d ↦ pos d | negsuc d ↦ pos (suc d) ]

unfoldable pub over : ℤ → ℤ → ℤ
over duration n = elim duration [ pos d ↦ n | negsuc d ↦ pos 0 -ℤ n ]

module _ {V : Type 0} where
  unfoldable pub box_x : View → Process V → ℤ
  unfolding pixel_of over
  box_x view p =
      view.rect.x *ℤ pixel_of view.duration
      +ℤ over view.duration ((p.start_time -ℤ view.start_time) *ℤ view.rect.w)

  unfoldable pub box_w : View → Process V → ℤ
  unfolding over
  box_w view p = over view.duration (p.duration *ℤ view.rect.w)

  unfoldable pub box_of : View → Process V → ℕ → Box
  unfolding box_x box_w label_of draw_label_in_box pixel_of
  box_of view p y =
      let pixel : ℤ = pixel_of view.duration in
      let x : ℤ = box_x view p in
      let w : ℤ = box_w view p in
      let text : Text = label_of view p in
      let width : ℕ = view.text_width text in
      record {
        pid = p.pid;
        x = x;
        y = y;
        w = w;
        label = record {
          text = text;
          start =
              draw_label_in_box pixel (pos width *ℤ pixel) x w
                ((view.rect.x +ℤ view.rect.w) *ℤ pixel);
          width = width;
          y = y + 12;
        };
      }

  -- The loop over the children of a process at `px` and `py`; after each the lines to it are drawn.
  unfoldable pub draw_subtrees : View → ℤ → ℕ → ℕ → Forest V → List Item
  unfolding box_of draw_process_connecting_lines
  draw_subtrees view px py next_y nil = []
  draw_subtrees view px py next_y (node p c r) =
      let x : ℤ = box_x view p in
      let below : List Item = draw_subtrees view x next_y (next_y + proc_h) c in
      let rest : List Item =
        draw_subtrees view px py (next_y + proc_h * num_nodes (node p c nil)) r in
      if ltb view.bottom next_y
      then []
      else process_box (box_of view p next_y)
        ∷ (below
            ++ connection (draw_process_connecting_lines (pixel_of view.duration) px py x next_y)
              ∷ rest)

  -- The loop over the roots.
  unfoldable pub draw_trees : View → ℕ → Forest V → List Item
  unfolding draw_subtrees
  draw_trees view y nil = []
  draw_trees view y (node p c r) =
      process_box (box_of view p y)
      ∷ (draw_subtrees view (box_x view p) y (y + proc_h) c
          ++ draw_trees view (y + proc_h * num_nodes (node p c nil)) r)

  -- The first process divides by the duration.
  unfoldable pub draw_processes : View → ℕ → Forest V → Result (List Item)
  unfolding draw_trees
  draw_processes view y nil = ok []
  draw_processes view y (node p c r) =
      if eqb_ℤ view.duration (pos 0) then err zero_division else ok (draw_trees view y (node p c r))
