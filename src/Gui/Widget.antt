-- ===== src/Gui/Widget.antt =====
-- The state of PyBootchartWidget of gui.py. Coordinates in the window are whole pixels, coordinates in the
-- chart and ratios are exact quotients.
use bootchart.Prelude.{ℕ, ◌*◌, Bool, false, List, Option, none, if◌then◌else◌}
use bootchart.Prelude.Results.{Result, ok, err, zero_division}
use bootchart.Prelude.Int.{ℤ, pos, ◌-ℤ◌, ◌*ℤ◌, ltb_ℤ, eqb_ℤ}
use bootchart.Prelude.Ratio.{Ratio, add_ratio, divide_ratio}

-- self.prevmousex and self.prevmousey: no attributes before the first press, None after a release.
pub data Mouse : Type 0 where
  unset : Mouse
  released : Mouse
  at : ℤ → ℤ → Mouse

pub data Axis : Type 0 where
  horizontal : Axis
  vertical : Axis

-- A gtk.Adjustment: which object it is, what the code reads and writes of it, and how many times
-- on_adjustments_changed is connected to its value-changed signal.
pub record Adjustment : Type 0 where
  pub object : ℕ
  pub value : Ratio
  pub upper : Ratio
  pub page_size : Ratio
  pub page_increment : Ratio
  pub handlers : ℕ

pub record Widget : Type 0 where
  pub zoom_ratio : Ratio
  pub xscale : Ratio
  pub x : Ratio
  pub y : Ratio
  pub chart_width : ℤ
  pub chart_height : ℤ
  pub hadj : Option Adjustment
  pub vadj : Option Adjustment
  pub hadj_is_connected : Bool
  pub vadj_is_connected : Bool
  pub mouse : Mouse

pub data Signal : Type 0 where
  redraw : Signal
  position_changed : Ratio → Ratio → Signal
  changed : Axis → Signal
  value_changed : Axis → Signal
  disconnected : Axis → Signal

-- What a handler leaves.
pub record Reply : Type 0 where
  pub widget : Widget
  pub signals : List Signal

abbrev pub whole : ℤ → Ratio
whole n = record { num = n; den = 1 }

unfoldable pub subtract : Ratio → Ratio → Ratio
subtract a b = add_ratio a (record b { num = pos 0 -ℤ b.num })

unfoldable pub multiply : Ratio → Ratio → Ratio
multiply a b = record { num = a.num *ℤ b.num; den = a.den * b.den }

-- a < b and a == b
unfoldable pub is_less : Ratio → Ratio → Bool
is_less a b = ltb_ℤ (a.num *ℤ pos b.den) (b.num *ℤ pos a.den)

unfoldable pub is_equal : Ratio → Ratio → Bool
is_equal a b = eqb_ℤ (a.num *ℤ pos b.den) (b.num *ℤ pos a.den)

-- a / b, which raises for b = 0.
unfoldable pub over : Ratio → Ratio → Result Ratio
over a b = if eqb_ℤ b.num (pos 0) then err zero_division else ok (divide_ratio a b)

-- PyBootchartWidget.__init__, with draw.extents
unfoldable pub new_widget : (Ratio → ℤ × ℤ) → Ratio → Widget
new_widget extents xscale =
    let size : ℤ × ℤ = extents xscale in
    record {
      zoom_ratio = whole (pos 1);
      xscale = xscale;
      x = whole (pos 0);
      y = whole (pos 0);
      chart_width = size.0;
      chart_height = size.1;
      hadj = none;
      vadj = none;
      hadj_is_connected = false;
      vadj_is_connected = false;
      mouse = unset;
    }
