-- ===== src/Gui/Scroll.antt =====
-- The adjustments of the scrolled window, and the zoom, of PyBootchartWidget of gui.py.
pub mod Laws
use bootchart.Prelude.{
  ℕ, suc, ◌+◌, Bool, true, false, not, ◌&&◌, ◌==◌, List, [], ◌∷◌, ◌++◌, Option, none, some,
  if◌then◌else◌,
}
use bootchart.Prelude.Results.{Result, ok, err, or_raise, ◌>>=◌, attribute_error}
use bootchart.Prelude.Int.{ℤ, pos}
use bootchart.Prelude.Ratio.{Ratio, add_ratio}
use bootchart.Gui.Widget.{
  Axis, horizontal, vertical, Adjustment, Widget, Signal, redraw, position_changed, changed,
  value_changed, disconnected, Reply, whole, subtract, multiply, is_less, is_equal, over,
}

-- max(0.0, upper - adj.page_size)
unfoldable pub max_value : Ratio → Adjustment → Ratio
max_value upper adj =
    let rest : Ratio = subtract upper adj.page_size in
    if is_less (whole (pos 0)) rest then rest else whole (pos 0)

-- _set_adj_upper
unfoldable pub set_adj_upper : Axis → Ratio → Adjustment → Adjustment × List Signal
unfolding max_value
set_adj_upper axis upper adj =
    let is_changed : Bool = not (is_equal adj.upper upper) in
    let is_value_changed : Bool = is_less (max_value upper adj) adj.value in
    let adj' : Adjustment = if is_changed then record adj { upper = upper } else adj in
    let clamped : Adjustment =
      if is_value_changed then record adj' { value = max_value upper adj } else adj' in
    (
      clamped,
      (if is_changed then changed axis ∷ [] else [])
          ++ (if is_value_changed then value_changed axis ∷ [] else []),
    )

-- gtk.Adjustment(0.0, 0.0, 0.0, 0.0, 0.0, 0.0), the object that GTK creates
abbrev pub new_adjustment : ℕ → Adjustment
new_adjustment object = record {
  object = object;
  value = whole (pos 0);
  upper = whole (pos 0);
  page_size = whole (pos 0);
  page_increment = whole (pos 0);
  handlers = 0;
}

-- adj.connect('value-changed', self.on_adjustments_changed)
abbrev pub connect : Adjustment → Adjustment
connect adj = record adj { handlers = adj.handlers + 1 }

-- Whether the widget lets go of the adjustment that it has: `given` is another object.
unfoldable pub lets_go : Bool → Option Adjustment → Adjustment → Bool
lets_go is_connected old given = elim old [
  | none ↦ false
  | some adj ↦ is_connected && not (adj.object == given.object)
]

-- The disconnection, which is no more than a signal here: an adjustment that the widget lets go of is
-- not part of its state any more.
unfoldable pub let_go : Axis → Bool → Option Adjustment → Adjustment → List Signal
unfolding lets_go
let_go axis is_connected old given =
    if lets_go is_connected old given then disconnected axis ∷ [] else []

-- The adjustment, or a new one for None.
unfoldable pub or_new : ℕ → Option Adjustment → Adjustment
or_new fresh none = new_adjustment fresh
or_new fresh (some adj) = adj

-- _set_scroll_adjustments; `fresh` and its successor are objects that GTK has not created yet.
unfoldable pub set_scroll_adjustments : ℕ → Option Adjustment → Option Adjustment → Widget → Reply
unfolding set_adj_upper let_go or_new
set_scroll_adjustments fresh hadj vadj w =
    let given_h : Adjustment = or_new fresh hadj in
    let given_v : Adjustment = or_new (fresh + 1) vadj in
    let h : Adjustment × List Signal =
      set_adj_upper horizontal (multiply w.zoom_ratio (whole w.chart_width)) given_h in
    let v : Adjustment × List Signal =
      set_adj_upper vertical (multiply w.zoom_ratio (whole w.chart_height)) given_v in
    record {
      widget = record w {
        hadj = some (connect h.0);
        vadj = some (connect v.0);
        hadj_is_connected = true;
        vadj_is_connected = true;
      };
      signals =
          let_go horizontal w.hadj_is_connected w.hadj given_h
          ++ let_go vertical w.vadj_is_connected w.vadj given_v
          ++ h.1
          ++ v.1;
    }

-- zoom_image
unfoldable pub zoom_image : ℕ → Ratio → Widget → Reply
unfolding set_scroll_adjustments
zoom_image fresh zoom_ratio w =
    let zoomed : Widget = record w { zoom_ratio = zoom_ratio } in
    let reply : Reply = set_scroll_adjustments fresh w.hadj w.vadj zoomed in
    record reply { signals = reply.signals ++ redraw ∷ [] }

-- zoom_to_rect and on_zoom_fit, for a rectangle of this width
unfoldable pub zoom_to_rect : ℕ → ℤ → Widget → Result Reply
unfolding zoom_image over
zoom_to_rect fresh width w = over (whole width) (whole w.chart_width) >>= λ zoom_ratio.
    let reply : Reply = zoom_image fresh zoom_ratio w in
    ok (record {
      widget = record reply.widget { x = whole (pos 0) };
      signals = reply.signals ++ position_changed (whole (pos 0)) reply.widget.y ∷ [];
    })

-- set_xscale, with draw.extents; the middle that it computes is not used, but raises without an
-- adjustment.
unfoldable pub set_xscale : (Ratio → ℤ × ℤ) → ℕ → Ratio → Widget → Result Reply
unfolding zoom_image
set_xscale extents fresh xscale w = or_raise attribute_error w.hadj >>= λ adj.
    let size : ℤ × ℤ = extents xscale in
    ok (
      zoom_image fresh w.zoom_ratio
        (record w { xscale = xscale; chart_width = size.0; chart_height = size.1 }))

-- on_zoom_100
unfoldable pub on_zoom_100 : (Ratio → ℤ × ℤ) → ℕ → Widget → Result Reply
unfolding zoom_image set_xscale
on_zoom_100 extents fresh w =
    let first : Reply = zoom_image fresh (whole (pos 1)) w in
    set_xscale extents (fresh + 2) (whole (pos 1)) first.widget >>= λ second.
    ok (record second { signals = first.signals ++ second.signals })

-- on_adjustments_changed
unfoldable pub on_adjustments_changed : Widget → Result Reply
unfolding over
on_adjustments_changed w = or_raise attribute_error w.hadj >>= λ h.
    over h.value w.zoom_ratio >>= λ x. or_raise attribute_error w.vadj >>= λ v.
    over v.value w.zoom_ratio >>= λ y.
    ok (record { widget = record w { x = x; y = y }; signals = redraw ∷ [] })

-- on_position_changed
unfoldable pub on_position_changed : Ratio → Ratio → Widget → Result Reply
on_position_changed x y w = or_raise attribute_error w.hadj >>= λ h.
    or_raise attribute_error w.vadj >>= λ v. ok (record {
      widget = record w {
        hadj = some (record h { value = multiply x w.zoom_ratio });
        vadj = some (record v { value = multiply y w.zoom_ratio });
      };
      signals = [];
    })

-- on_allocation_size_changed
unfoldable pub on_allocation_size_changed : ℤ → ℤ → Widget → Result Reply
on_allocation_size_changed width height w =
    let sized : ℤ → Adjustment → Adjustment = λ size adj. record adj {
      page_size = whole size;
      page_increment = multiply (whole size) (record { num = pos 9; den = 10 });
    } in
    or_raise attribute_error w.hadj >>= λ h. or_raise attribute_error w.vadj >>= λ v. ok (record {
      widget = record w { hadj = some (sized width h); vadj = some (sized height v) };
      signals = [];
    })
