-- ===== src/Gui/Window.antt =====
-- The rest of PyBootchartWidget, and the pages of PyBootchartWindow of gui.py: how the chart is drawn into
-- the window, fitted to it, and which charts there are.
pub mod Laws
use bootchart.Prelude.{ℕ, Bool, true, false, Option, none, some, List, [], ◌∷◌, ltb, if◌then◌else◌}
use bootchart.Prelude.Results.{Result}
use bootchart.Prelude.Int.{ℤ, pos}
use bootchart.Prelude.Ratio.{Ratio}
use bootchart.Draw.Layout.{RenderOptions}
use bootchart.Gui.Widget.{Widget, Signal, Reply, redraw, whole, multiply, subtract}
use bootchart.Gui.Scroll.{zoom_to_rect}

-- A place in the chart or in the window.
pub record Place : Type 0 where
  pub x : Ratio
  pub y : Ratio

-- draw: where a place of the chart comes to stand; first it is moved, then it is scaled.
unfoldable pub draw : Widget → Place → Place
unfolding multiply subtract
draw w p = record {
  x = multiply (subtract p.x w.x) w.zoom_ratio;
  y = multiply (subtract p.y w.y) w.zoom_ratio;
}

-- on_zoom_fit, in a window of this width
unfoldable pub on_zoom_fit : ℕ → ℤ → Widget → Result Reply
unfolding zoom_to_rect
on_zoom_fit fresh allocation_width w = zoom_to_rect fresh allocation_width w

-- show_toggled: the option `show_all` and the signals.
unfoldable pub show_toggled : Bool → Bool × List Signal
show_toggled active = (active, redraw ∷ [])

-- RenderOptions.__init__
abbrev pub render_options : RenderOptions
render_options = record { cumulative = true; charts = true; kernel_only = false }

-- A page: the options and the scale of its chart.
pub record Tab : Type 0 where
  pub options : RenderOptions
  pub xscale : Ratio

abbrev kernel_tab : Tab
kernel_tab = record {
  options = record { cumulative = false; charts = false; kernel_only = true };
  xscale = whole (pos 5);
}

-- PyBootchartWindow.__init__, by the number of the kernel's processes, if there is a kernel log.
unfoldable pub tabs_of : Option ℕ → List Tab
tabs_of kernel =
    let full : Tab = record { options = render_options; xscale = whole (pos 1) } in
    elim kernel [
      | none ↦ full ∷ []
      | some n ↦ if ltb 2 n then full ∷ kernel_tab ∷ [] else full ∷ []
    ]
