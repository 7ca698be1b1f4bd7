-- ===== src/Draw/BarChart/Laws.antt =====
-- The process chart with its axis.
use mathlib.Core.Path.{subst}
use bootchart.Prelude.{
  sym, true, ◌*◌, ℕ, ◌+◌, ◌<◌, ◌≡◌, refl, Bool, false, arith, List, [], ◌∷◌, Option, ltb,
  if◌then◌else◌,
}
use bootchart.Prelude.Results.{ok}
use bootchart.Prelude.Int.{ℤ, pos, ◌+ℤ◌, int_laws, ◌-ℤ◌, ◌≤ℤ◌}
use bootchart.Tree.Forest.{Forest, num_nodes, processes, get_start_time, get_end_time}
use bootchart.Draw.Clip.{Rect}
use bootchart.Draw.Rows.{draw_roots}
use bootchart.Draw.Axis.Returns.{
  draw_box_ticks-returns, draw_annotations-returns, draw_sec_labels-returns,
}
use bootchart.Draw.Sizes.{proc_h}
use bootchart.Draw.Rows.Within.{Within, draw_roots-Within}
use bootchart.Draw.Boxes.{draw_trees, View, Item, process_box, connection}
use bootchart.Draw.Boxes.Within.{AllWithin}
use bootchart.Draw.Boxes.Chart.{
  draw_processes-ok, rows_of-draw_trees, rows_of, AllRun, draw_processes-AllWithin,
}
use bootchart.Draw.BarChart.{BarChart, state_legends, bar_chart_rect, draw_process_bar_chart}

module _ {V : Type 0} where
  -- With a duration and seconds that are seen, the chart is drawn, and its boxes stand in the rows of
  -- `draw_roots`.
  pub draw_process_bar_chart-rows_of :
      (label_w : ℕ → ℤ) (view : View) (kernel_only : Bool) (times : List (Option ℤ)) (curr_y : ℕ)
      (w h : ℤ) (sec_w : ℕ) (f : Forest V)
      → 0 < sec_w
      → ¬ (view.duration ≡ pos 0)
      → (chart : BarChart) × (draw_process_bar_chart label_w view kernel_only times curr_y w h sec_w
            f
          ≡ ok chart)
        × (rows_of chart.items ≡ draw_roots proc_h view.bottom (curr_y + 60) f)
  unfolding draw_process_bar_chart
  draw_process_bar_chart-rows_of label_w view kernel_only times curr_y w h sec_w f step some_time =
      let rect : Rect = bar_chart_rect kernel_only curr_y w h in
      let (ticks, e1) = draw_box_ticks-returns rect sec_w step in
      let (labels, e2) =
        draw_sec_labels-returns label_w rect sec_w (if ltb 100 sec_w then 1 else 5) step in
      let (places, e3) =
        draw_annotations-returns rect view.start_time view.duration times some_time in
      let inner : View = record view { rect = rect } in
      let e4 = draw_processes-ok inner (curr_y + 60) f some_time in
      (
        record {
          legends = state_legends kernel_only curr_y;
          rect = rect;
          ticks = ticks;
          labels = labels;
          annotations = places;
          items = draw_trees inner (curr_y + 60) f;
        },
        rw (e1, e2, e3, e4) refl,
        rows_of-draw_trees inner (curr_y + 60) f,
      )

-- Every box stands between the upper and the lower edge of a rectangle.
abbrev pub AllBetweenEdges : Rect → List Item → Type 0
AllBetweenEdges rect [] = Unit
AllBetweenEdges rect (process_box b ∷ items) =
    (rect.y ≤ℤ pos b.y) × (pos (b.y + proc_h) ≤ℤ rect.y +ℤ rect.h) × AllBetweenEdges rect items
AllBetweenEdges rect (connection ps ∷ items) = AllBetweenEdges rect items

-- Boxes whose rows stand between two heights of the rectangle.
rows-AllBetweenEdges :
    (rect : Rect) (top bottom : ℕ) (items : List Item)
    → rect.y ≤ℤ pos top
    → pos bottom ≤ℤ rect.y +ℤ rect.h
    → Within top bottom (rows_of items)
    → AllBetweenEdges rect items
unfolding rows_of
rows-AllBetweenEdges rect top bottom [] above below h = tt
rows-AllBetweenEdges rect top bottom (process_box b ∷ items) above below (first, last, h) = (
  omega (int_laws, above, first),
  omega (int_laws, below, last),
  rows-AllBetweenEdges rect top bottom items above below h,
)
rows-AllBetweenEdges rect top bottom (connection ps ∷ items) above below h =
    rows-AllBetweenEdges rect top bottom items above below h

bar_chart_rect-top :
    (kernel_only : Bool) (curr_y : ℕ) (w h : ℤ)
    → (bar_chart_rect kernel_only curr_y w h).y ≤ℤ pos (curr_y + 60)
unfolding bar_chart_rect
bar_chart_rect-top true curr_y w h = omega arith
bar_chart_rect-top false curr_y w h = omega arith

bar_chart_rect-bottom :
    (kernel_only : Bool) (curr_y : ℕ) (w h : ℤ) (n : ℕ)
    → pos (n + 4) ≤ℤ h
    → pos n
      ≤ℤ (bar_chart_rect kernel_only curr_y w h).y +ℤ (bar_chart_rect kernel_only curr_y w h).h
unfolding bar_chart_rect
bar_chart_rect-bottom kernel_only curr_y w h n le = omega (int_laws, le)

module _ {V : Type 0} where
  -- For a tree with a duration, in which no process has a negative one, a second of at least one pixel, and
  -- a chart whose height `h` has room for a row for every process, and 4 pixels more, the chart is drawn
  -- with the times of the tree. Every box stands in the rectangle of the chart, in both directions.
  -- Its label stands in the row of the box, in the middle of it, behind or before it, and not over the
  -- right edge. Every connection is made of horizontal and vertical pieces, and the boxes stand in the
  -- rows of `draw_roots`.
  pub draw_process_bar_chart-AllWithin :
      (label_w : ℕ → ℤ) (view : View) (kernel_only : Bool) (times : List (Option ℤ)) (curr_y : ℕ)
      (w h : ℤ) (sec_w : ℕ) (f : Forest V)
      → pos 0 ≤ℤ w
      → 0 < sec_w
      → view.start_time ≡ get_start_time f
      → view.duration ≡ get_end_time f -ℤ get_start_time f
      → ¬ (view.duration ≡ pos 0)
      → AllRun (processes f)
      → pos (curr_y + 60 + proc_h * num_nodes f + 4) ≤ℤ h
      → (chart : BarChart) × (draw_process_bar_chart label_w view kernel_only times curr_y w h sec_w
            f
          ≡ ok chart)
        × (chart.rect ≡ bar_chart_rect kernel_only curr_y w h)
        × AllWithin (record view { rect = chart.rect }) chart.items
        × AllBetweenEdges chart.rect chart.items
        × (rows_of chart.items ≡ draw_roots proc_h view.bottom (curr_y + 60) f)
  unfolding draw_process_bar_chart bar_chart_rect
  draw_process_bar_chart-AllWithin label_w view kernel_only times curr_y w h sec_w f wide step start
        duration some_time run room =
      let rect : Rect = bar_chart_rect kernel_only curr_y w h in
      let (ticks, e1) = draw_box_ticks-returns rect sec_w step in
      let (labels, e2) =
        draw_sec_labels-returns label_w rect sec_w (if ltb 100 sec_w then 1 else 5) step in
      let (places, e3) =
        draw_annotations-returns rect view.start_time view.duration times some_time in
      let (items, e4, within, rows) =
        draw_processes-AllWithin (record view { rect = rect }) (curr_y + 60) f (omega arith) wide
          start duration some_time run in
      (
        record {
          legends = state_legends kernel_only curr_y;
          rect = rect;
          ticks = ticks;
          labels = labels;
          annotations = places;
          items = items;
        },
        rw (e1, e2, e3, e4) refl,
        refl,
        within,
        rows-AllBetweenEdges rect (curr_y + 60) (curr_y + 60 + proc_h * num_nodes f) items
            (bar_chart_rect-top kernel_only curr_y w h)
            (bar_chart_rect-bottom kernel_only curr_y w h (curr_y + 60 + proc_h * num_nodes f) room)
            (subst (Within (curr_y + 60) (curr_y + 60 + proc_h * num_nodes f)) (sym rows)
              (draw_roots-Within view.bottom (curr_y + 60) f)),
        rows,
      )
