-- ===== src/Draw/BarChart.antt =====
-- draw_process_bar_chart of draw.py: the legends, the time axis and the processes.
pub mod Laws
use bootchart.Prelude.{ℕ, ◌+◌, ◌*◌, Bool, true, false, List, [], ◌∷◌, Option, ltb, if◌then◌else◌}
use bootchart.Prelude.Results.{Result, ok, ◌>>=◌}
use bootchart.Prelude.Int.{ℤ, pos, ◌+ℤ◌, ◌-ℤ◌}
use bootchart.Prelude.Ratio.{Ratio}
use bootchart.Tree.Forest.{Forest}
use bootchart.Draw.Clip.{Rect}
use bootchart.Draw.Axis.{Tick, SecLabel, draw_box_ticks, draw_sec_labels, draw_annotations}
use bootchart.Draw.Sizes.{off_x, off_y, proc_h}
use bootchart.Draw.Boxes.{View, Item, draw_processes}

-- Where a legend_at is drawn.
pub record StateLegend : Type 0 where
  pub x : ℕ
  pub y : ℕ

pub record BarChart : Type 0 where
  pub legends : List StateLegend
  pub rect : Rect
  pub ticks : List Tick
  pub labels : List SecLabel
  pub annotations : List Ratio
  pub items : List Item

abbrev legend_at : ℕ → ℕ → StateLegend
legend_at x y = record { x = x; y = y }

-- The legends of the four states, which the kernel's chart goes without.
unfoldable pub state_legends : Bool → ℕ → List StateLegend
state_legends true curr_y = []
state_legends false curr_y =
    legend_at off_x (curr_y + 45)
    ∷ legend_at (off_x + 120) (curr_y + 45)
    ∷ legend_at (off_x + 240) (curr_y + 45)
    ∷ legend_at (off_x + 360) (curr_y + 45)
    ∷ []

abbrev pub header_size : Bool → ℕ
header_size true = 0
header_size false = 45

unfoldable pub bar_chart_rect : Bool → ℕ → ℤ → ℤ → Rect
bar_chart_rect kernel_only curr_y w h =
    let top : ℕ = curr_y + header_size kernel_only + 15 in
    record { x = pos off_x; y = pos top; w = w; h = h -ℤ pos (2 * off_y) -ℤ pos top +ℤ pos proc_h }

module _ {V : Type 0} where
  -- The rectangle of `view` is replaced by that of the chart; `label_w` is the width of the label of a
  -- second.
  unfoldable pub draw_process_bar_chart :
      (ℕ → ℤ) → View → Bool → List (Option ℤ) → ℕ → ℤ → ℤ → ℕ → Forest V → Result BarChart
  unfolding state_legends bar_chart_rect draw_box_ticks draw_sec_labels draw_annotations
      draw_processes
  draw_process_bar_chart label_w view kernel_only times curr_y w h sec_w f =
      let rect : Rect = bar_chart_rect kernel_only curr_y w h in
      let nsec : ℕ = if ltb 100 sec_w then 1 else 5 in
      (do
        ticks ← draw_box_ticks rect sec_w
        labels ← draw_sec_labels label_w rect sec_w nsec
        annotations ← draw_annotations rect view.start_time view.duration times
        items ← draw_processes (record view { rect = rect }) (curr_y + 60) f
        ok (record {
          legends = state_legends kernel_only curr_y;
          rect = rect;
          ticks = ticks;
          labels = labels;
          annotations = annotations;
          items = items;
        }))
