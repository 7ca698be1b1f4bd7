-- ===== src/Examples/Charts.antt =====
-- The charts of draw.py and the image of batch.py at small inputs.
use bootchart.Prelude.{
  ℕ, ◌+◌, ◌*◌, ◌≤◌, ◌≡◌, refl, true, false, some, none, List, [], ◌∷◌, Text, codes, length, text_eq,
  arith,
}
use bootchart.Prelude.Int.{ℤ, pos, ◌*ℤ◌, ◌≤ℤ◌, ◌-ℤ◌, ◌+ℤ◌, min_ℤ, max_ℤ, parts_of_eq}
use bootchart.Prelude.Results.{ok}
use bootchart.Prelude.Dict.{Dict}
use bootchart.Samples.{Process, new_process, end_time}
use bootchart.Tree.Forest.{Forest, nil, node, num_nodes, processes, get_start_time, get_end_time}
use bootchart.Draw.Clip.{Rect}
use bootchart.Draw.Rows.{draw_roots}
use bootchart.Draw.Rows.Laws.{rows_from}
use bootchart.Draw.Sizes.{proc_h}
use bootchart.Draw.Layout.{Surface, sec_w_of, truncate, RenderOptions, Chart, Page}
use bootchart.Draw.Boxes.{View}
use bootchart.Draw.Boxes.Within.{AllWithin}
use bootchart.Draw.Boxes.Chart.{rows_of}
use bootchart.Draw.BarChart.{BarChart, bar_chart_rect, draw_process_bar_chart}
use bootchart.Draw.BarChart.Laws.{AllBetweenEdges, draw_process_bar_chart-AllWithin}
use bootchart.Draw.Curve.{Sample, Curve, draw_chart}
use bootchart.Draw.Curve.Laws.{AllIn}
use bootchart.Draw.Curve.Within.{draw_chart-AllIn}
use bootchart.Draw.Axis.{draw_annotations}
use bootchart.Trace.Annotate.{times}
use bootchart.Trace.Annotate.Laws.{first_starts, draw_annotations-times}
use bootchart.Draw.Layout.Laws.{Drawable}
use bootchart.Batch.{
  unscaled, Format, png, Outcome, written, format_of, chosen_format, behind_last_dot, min_img_w,
}
use bootchart.Batch as Batch
use bootchart.Batch.Laws.{render-rows_from}

abbrev proc : ℕ → Text → ℕ → ℕ → Process ℤ
unfolding new_process
proc pid cmd start duration =
    let p : Process ℤ = new_process (pos pid) cmd (pos 1000) (pos start) in
    record p { duration = pos duration }

abbrev tree : Forest ℤ
unfolding new_process
tree =
    node (proc 1000 (codes "init") 10 400)
      (node (proc 2000 (codes "udevd") 20 100) nil (node (proc 3000 (codes "sh") 30 50) nil nil))
      nil

abbrev view : View
view = record {
  rect = record { x = pos 0; y = pos 0; w = pos 0; h = pos 0 };
  start_time = pos 10;
  duration = pos 400;
  bottom = 600;
  show_all = false;
  show_pid = true;
  text_width = λ text. 7 * length text;
}

some_time : ¬ (pos 400 ≡ pos 0)
some_time same = omega (arith, parts_of_eq same)

abbrev label_w : ℕ → ℤ
label_w second = pos 15

draw_process_bar_chart-AllWithin_example :
    (chart : BarChart) × (draw_process_bar_chart label_w view false
        (some (pos 30) ∷ none ∷ [])
        300
        (pos 200)
        (pos 480)
        50
        tree
      ≡ ok chart)
    × (chart.rect ≡ bar_chart_rect false 300 (pos 200) (pos 480))
    × AllWithin (record view { rect = chart.rect }) chart.items
    × AllBetweenEdges chart.rect chart.items
    × (rows_of chart.items ≡ draw_roots proc_h view.bottom (300 + 60) tree)
unfolding num_nodes new_process get_start_time get_end_time end_time min_ℤ max_ℤ ◌-ℤ◌ ◌+ℤ◌ processes
draw_process_bar_chart-AllWithin_example =
    draw_process_bar_chart-AllWithin label_w view false (some (pos 30) ∷ none ∷ []) 300 (pos 200)
      (pos 480) 50 tree (omega arith) (omega arith) refl refl some_time
      (omega arith, (omega arith, (omega arith, tt))) (omega arith)

abbrev bounds : Rect
bounds = record { x = pos 10; y = pos 130; w = pos 200; h = pos 55 }

abbrev first : Sample
first = record { time = pos 12; value = pos 40 }

abbrev rest : List Sample
rest = record { time = pos 14; value = pos 0 } ∷ record { time = pos 20; value = pos 100 } ∷ []

draw_chart-AllIn_example :
    (curve : Curve) × (draw_chart (pos 100) true bounds (first ∷ rest) (pos 10) none ≡ ok curve)
    × AllIn bounds curve.x_den curve.y_den curve.path
    × (pos 1 ≤ℤ curve.x_den)
    × (pos 1 ≤ℤ curve.y_den)
draw_chart-AllIn_example =
    draw_chart-AllIn (pos 100) true bounds first rest (pos 10) none
      (omega arith, omega arith, omega arith, omega arith) (omega arith) (omega arith) (omega arith)
      tt (omega arith, omega arith, (omega arith, omega arith, (omega arith, omega arith, tt)))

abbrev process_map : Dict ℤ (Process ℤ)
unfolding new_process
process_map =
    (pos 1000, proc 1000 (codes "init") 10 400) ∷ (pos 2000, proc 2000 (codes "udevd") 20 100) ∷ []

draw_annotations-times_example :
    draw_annotations bounds
      (pos 10)
      (pos 400)
      (times (some (pos 300)) (some (codes "udevd,sh" ∷ [])) process_map)
    ≡ draw_annotations bounds
        (pos 10)
        (pos 400)
        (some (pos 300) ∷ first_starts (codes "udevd,sh" ∷ []) process_map)
draw_annotations-times_example =
    draw_annotations-times bounds (pos 10) (pos 400) (some (pos 300)) (codes "udevd,sh" ∷ [])
      process_map

abbrev chart_of_tree : Chart ℤ
chart_of_tree = record {
  start_time = pos 10;
  duration = pos 400;
  has_taskstats = true;
  process_tree = tree;
  times = [];
  unit = pos 100;
  cpu_stats = record { time = pos 20; io_wait = pos 80; load = pos 60 } ∷ [];
  disk_stats = record { time = pos 20; util = pos 30; tput = pos 700 } ∷ [];
  mem_stats =
      record {
        time = pos 20;
        mem_total = pos 900;
        mem_free = pos 500;
        buffers = pos 20;
        cached = pos 50;
        swap_total = pos 0;
        swap_free = pos 0;
      }
      ∷ [];
}

abbrev surface : Surface
surface = record {
  first_h = 13;
  text_h = 14;
  text_width = λ text. 7 * length text;
  label_w = λ second. pos 15;
  show_all = false;
  show_pid = false;
}

abbrev full : RenderOptions
full = record { cumulative = true; charts = true; kernel_only = false }

chart_of_tree-Drawable : Drawable unscaled chart_of_tree
unfolding sec_w_of truncate ◌*ℤ◌
chart_of_tree-Drawable = record {
  has_duration = some_time;
  has_seconds = omega arith;
  has_unit = omega arith;
  has_cpu = omega arith;
  has_disk = omega arith;
  has_mem = (omega arith, omega arith);
}

render-rows_from_example :
    (w : ℤ) × (h y : ℕ) × (page : Page) × (Batch.render none
        (codes "boot.png")
        full
        surface
        chart_of_tree
      ≡ ok (written png w h page))
    × (page.size.0 ≤ℤ w)
    × (pos min_img_w ≤ℤ w)
    × ((rows_of page.bars.items) ≡ rows_from proc_h y (processes chart_of_tree.process_tree))
    × (y + proc_h * num_nodes chart_of_tree.process_tree ≤ h)
unfolding chosen_format format_of text_eq behind_last_dot
render-rows_from_example =
    render-rows_from none (codes "boot.png") (codes "png") png full surface chart_of_tree refl refl
      refl (omega arith) chart_of_tree-Drawable
