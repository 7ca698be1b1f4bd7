-- ===== src/Examples/Graph.antt =====
-- The cumulative graph of a few processes, and the window, on small inputs.
use bootchart.Prelude.{
  ℕ, ◌≡◌, refl, true, false, none, some, Option, List, [], ◌∷◌, Text, codes, arith,
}
use bootchart.Prelude.Int.{ℤ, pos, parts_of_eq}
use bootchart.Prelude.Ratio.{Ratio}
use bootchart.Prelude.Dict.{Dict, get}
use bootchart.Prelude.Results.{err, ok, type_error}
use bootchart.Samples.{Process, ProcessSample, new_process}
use bootchart.Draw.Cumulative.{stat_cpu, no_groups, group_processes}
use bootchart.Draw.Cumulative.Laws.{groups_time, kept_time, group_processes-kept_time}
use bootchart.Draw.Cumulative.Layer.{Scale, Seg, render_layer}
use bootchart.Draw.Cumulative.Layer.Heights.{Stacked, StandsOn, render_layer-StandsOn}
use bootchart.Draw.Cumulative.Graph.{Graph, draw_cuml_graph}
use bootchart.Draw.Cumulative.Graph.Laws.{draw_cuml_graph-returns}
use bootchart.Gui.Widget.{Adjustment, Widget, Reply, is_equal, whole, unset}
use bootchart.Gui.Scroll.{new_adjustment}
use bootchart.Gui.Window.{draw, on_zoom_fit}
use bootchart.Gui.Window.Laws.{on_zoom_fit-draw}
use bootchart.Gui.Events.{
  Event, key_press, left, button_press, button_release, motion, scroll, scroll_up, handle_all,
}
use bootchart.Gui.Events.Laws.{
  OneAtATime, no_more, key, wheel, hover, press, drag, release, Ready, handle_all-returns,
}

abbrev tick : ℕ → ℕ → ProcessSample ℤ
tick t user = record {
  time = pos t;
  state = codes "R";
  cpu_sample = record { time = none; user = pos user; sys = pos 0; io = pos 0; swap = pos 0 };
}

abbrev run : Text → List (ProcessSample ℤ) → Process ℤ
unfolding new_process
run cmd samples = record (new_process (pos 5000) cmd (pos 1000) (pos 100)) { samples = samples }

-- Two processes of one command line, and the collector.
abbrev processes : List (Process ℤ)
processes =
    run (codes "sh") (tick 100 30 ∷ tick 120 20 ∷ [])
    ∷ run (codes "sh") (tick 120 50 ∷ [])
    ∷ run (codes "bootchartd") (tick 100 99 ∷ [])
    ∷ []

group_processes-kept_time_example :
    (groups_time stat_cpu (group_processes stat_cpu no_groups processes).m_proc_list
      ≡ kept_time stat_cpu processes)
    × ((group_processes stat_cpu no_groups processes).total_time ≡ kept_time stat_cpu processes)
group_processes-kept_time_example = group_processes-kept_time stat_cpu processes

abbrev scale : Scale
scale = record {
  bounds = record { x = pos 10; y = pos 500; w = pos 300; h = pos 100 };
  start_time = pos 100;
  duration = pos 20;
  total_time = pos 100;
}

abbrev extents : Text → ℤ × ℤ
extents text = (pos 40, pos 8)

abbrev below : Dict ℤ ℤ
below = (pos 100, pos 600) ∷ (pos 120, pos 580) ∷ []

abbrev row : Dict ℤ ℤ
row = (pos 100, pos 30) ∷ (pos 120, pos 100) ∷ []

below-Stacked : Stacked below (pos 600) (pos 100 ∷ pos 120 ∷ [])
unfolding get
below-Stacked = (pos 600, refl, omega arith, (pos 580, refl, omega arith, tt))

some_time : ¬ (pos 20 ≡ pos 0)
some_time same = omega (arith, parts_of_eq same)

render_layer-StandsOn_example :
    (s : Seg) × (render_layer scale below row (pos 100) (pos 120 ∷ []) ≡ ok s)
    × StandsOn scale below row s.row (pos 0) (pos 100 ∷ pos 120 ∷ [])
render_layer-StandsOn_example =
    render_layer-StandsOn scale below row (pos 600) (pos 100) (pos 120 ∷ []) some_time below-Stacked
      ((refl, tt), (tt, tt))

draw_cuml_graph-returns_example :
    (drawn : Option Graph) × (draw_cuml_graph extents scale stat_cpu processes ≡ ok drawn)
draw_cuml_graph-returns_example = draw_cuml_graph-returns extents scale stat_cpu processes some_time

abbrev adjusted : ℕ → Adjustment
adjusted object = record (new_adjustment object) {
  value = whole (pos 700);
  page_size = whole (pos 200);
  handlers = 1;
}

abbrev window : Widget
window = record {
  zoom_ratio = whole (pos 1);
  xscale = whole (pos 1);
  x = whole (pos 0);
  y = whole (pos 0);
  chart_width = pos 800;
  chart_height = pos 600;
  hadj = some (adjusted 0);
  vadj = some (adjusted 1);
  hadj_is_connected = true;
  vadj_is_connected = true;
  mouse = unset;
}

abbrev smaller : Ratio
smaller = record { num = pos 1; den = 2 }

-- A drag with the first button, between other events.
abbrev gestures : List Event
gestures =
    motion false false (pos 3) (pos 3)
    ∷ button_press 1 (pos 5) (pos 5)
    ∷ motion true false (pos 9) (pos 7)
    ∷ scroll true scroll_up
    ∷ motion true false (pos 12) (pos 8)
    ∷ button_release 1
    ∷ key_press left
    ∷ []

gestures-OneAtATime : OneAtATime none gestures
gestures-OneAtATime = hover (pos 3) (pos 3) (
    press 1 (pos 5) (pos 5) refl (
      drag 1 (pos 9) (pos 7)
        (wheel true scroll_up (drag 1 (pos 12) (pos 8) (release 1 (key left no_more))))))

window-Ready : Ready none window
window-Ready same = omega (arith, parts_of_eq same)

handle_all-returns_example : (w' : Widget) × (handle_all 2 gestures window ≡ ok w')
handle_all-returns_example = handle_all-returns 2 window gestures-OneAtATime window-Ready

-- With both buttons down, the release of one is followed by a motion of the other.
two_buttons :
    handle_all 2
      (button_press 1 (pos 5) (pos 5)
        ∷ button_press 2 (pos 5) (pos 5)
        ∷ button_release 2
        ∷ motion true false (pos 9) (pos 7)
        ∷ [])
      window
    ≡ err type_error
unfolding handle_all
two_buttons = refl

on_zoom_fit-draw_example :
    (r : Reply) × (on_zoom_fit 2 (pos 640) window ≡ ok r)
    × (is_equal (draw r.widget (record { x = whole (pos 0); y = whole (pos 9) })).x (whole (pos 0))
        ≡ true)
    × (is_equal
          (draw r.widget (record { x = whole window.chart_width; y = whole (pos 9) })).x
          (whole (pos 640))
        ≡ true)
on_zoom_fit-draw_example = on_zoom_fit-draw 2 640 799 (whole (pos 9)) window refl
