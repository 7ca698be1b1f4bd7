-- ===== src/Examples/Pages.antt =====
-- Pages of draw.py with few processes.
use bootchart.Prelude.{
  ◌*◌, length, false, ℕ, ◌≡◌, refl, true, false, none, List, [], ◌∷◌, codes, arith,
}
use bootchart.Prelude.Int.{ℤ, pos, ◌*ℤ◌, ◌-ℤ◌, ◌+ℤ◌, max_ℤ, min_ℤ, parts_of_eq}
use bootchart.Prelude.Results.{ok, err, value_error}
use bootchart.Prelude.Ratio.{Ratio}
use bootchart.Samples.{Process, ProcessSample, new_process}
use bootchart.Tree.Forest.{Forest, nil, node}
use bootchart.Draw.Clip.{Rect, clip_visible}
use bootchart.Draw.Activity.{draw_bars, no_last}
use bootchart.Draw.Activity.Laws.{Rising, SideBySide, ends, shown_ends, draw_bars-SideBySide}
use bootchart.Draw.Charts.{cpu_chart, cpu_curves, framed, plotted, if_seen}
use bootchart.Draw.Curve.{draw_chart}
use bootchart.Draw.BarChart.{draw_process_bar_chart}
use bootchart.Draw.Axis.{draw_box_ticks, draw_annotations}
use bootchart.Draw.Boxes.Chart.{rows_of}
use bootchart.Draw.Layout.{
  Surface, sec_w_of, truncate, scale_of, optional_charts, render_charts, extents, RenderOptions,
  Chart, Page, render,
}
use bootchart.Draw.Rows.Within.{Within}
use bootchart.Draw.Layout.Laws.{Drawable, proc_height, render-Within}

abbrev proc : ℕ → Process ℤ
unfolding new_process
proc pid = new_process (pos pid) (codes "sh") (pos 1000) (pos 0)

abbrev tree : Forest ℤ
tree = node (proc 1000) (node (proc 2000) nil nil) (node (proc 3000) nil nil)

abbrev chart : Chart ℤ
chart = record {
  start_time = pos 0;
  duration = pos 100;
  has_taskstats = true;
  process_tree = tree;
  times = [];
  unit = pos 100;
  cpu_stats = record { time = pos 20; io_wait = pos 80; load = pos 60 } ∷ [];
  disk_stats = record { time = pos 20; util = pos 30; tput = pos 700 } ∷ [];
  mem_stats =
      record {
        time = pos 20;
        mem_total = pos 900;
        mem_free = pos 500;
        buffers = pos 20;
        cached = pos 50;
        swap_total = pos 0;
        swap_free = pos 0;
      }
      ∷ [];
}

abbrev surface : Surface
surface = record {
  first_h = 13;
  text_h = 14;
  text_width = λ text. 7 * length text;
  label_w = λ second. pos 15;
  show_all = false;
  show_pid = false;
}

abbrev full : RenderOptions
full = record { cumulative = true; charts = true; kernel_only = false }

abbrev one : Ratio
one = record { num = pos 1; den = 1 }

abbrev screen : Rect
screen = record { x = pos 0; y = pos 0; w = pos 800; h = pos 600 }

some_time : ¬ (pos 100 ≡ pos 0)
some_time same = omega (arith, parts_of_eq same)

chart-Drawable : Drawable one chart
unfolding sec_w_of truncate ◌*ℤ◌
chart-Drawable = record {
  has_duration = some_time;
  has_seconds = omega arith;
  has_unit = omega arith;
  has_cpu = omega arith;
  has_disk = omega arith;
  has_mem = (omega arith, omega arith);
}

render-Within_example :
    (page : Page) × (render full surface one screen chart ≡ ok page)
    × Within 0 (proc_height full chart page.size.1) (rows_of page.bars.items)
render-Within_example =
    render-Within full surface one screen chart refl (omega arith) chart-Drawable

-- The scale 1 / 51 leaves nothing of a second: the ticks raise.
too_small : render full surface (record { num = pos 1; den = 51 }) screen chart ≡ err value_error
unfolding render optional_charts render_charts cpu_chart if_seen cpu_curves framed draw_box_ticks
    clip_visible max_ℤ min_ℤ ◌+ℤ◌ ◌-ℤ◌ ◌*ℤ◌ sec_w_of truncate extents draw_process_bar_chart
too_small = refl

-- Without CPU samples a chart that is seen raises, and one that is not seen does not matter.
no_samples : cpu_chart (scale_of one chart) screen (pos 300) 200 [] ≡ err value_error
unfolding cpu_chart if_seen cpu_curves framed plotted draw_chart draw_box_ticks draw_annotations
    clip_visible max_ℤ min_ℤ ◌+ℤ◌ ◌-ℤ◌ ◌*ℤ◌ sec_w_of truncate
no_samples = refl

abbrev sample : ℕ → ProcessSample ℤ
sample t = record {
  time = pos t;
  state = codes "R";
  cpu_sample = record { time = none; user = pos 5; sys = pos 0; io = pos 0; swap = pos 0 };
}

abbrev placed : List (ℤ × ProcessSample ℤ)
placed = (pos 10, sample 0) ∷ (pos 12, sample 20) ∷ (pos 30, sample 40) ∷ []

placed-Rising : Rising (pos 0) placed
placed-Rising = (omega arith, (omega arith, (omega arith, tt)))

draw_bars-SideBySide_example :
    SideBySide no_last (draw_bars screen (pos 4) no_last placed)
    × (ends (draw_bars screen (pos 4) no_last placed) ≡ shown_ends screen (pos 4) placed)
draw_bars-SideBySide_example =
    draw_bars-SideBySide screen (pos 4) (pos 0) placed (omega arith) (omega arith) (omega arith)
      placed-Rising
