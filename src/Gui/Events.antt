-- ===== src/Gui/Events.antt =====
-- The keyboard and mouse handlers of PyBootchartWidget of gui.py, with the value that each returns to GTK.
pub mod Laws
use bootchart.Prelude.{
  ℕ, ◌+◌, ◌==◌, Bool, true, false, ◌||◌, List, [], ◌∷◌, ◌++◌, Option, none, some, if◌then◌else◌,
}
use bootchart.Prelude.Results.{Result, ok, err, ◌>>=◌, attribute_error, type_error}
use bootchart.Prelude.Int.{ℤ, pos, ◌-ℤ◌}
use bootchart.Prelude.Ratio.{Ratio, add_ratio, divide_ratio}
use bootchart.Gui.Widget.{
  Mouse, unset, released, at, Widget, Signal, redraw, position_changed, Reply, whole, subtract,
  multiply, over,
}
use bootchart.Gui.Scroll.{zoom_image, set_xscale}

pub data Key : Type 0 where
  left : Key
  right : Key
  up : Key
  down : Key
  other : Key

pub data ScrollDirection : Type 0 where
  scroll_up : ScrollDirection
  scroll_down : ScrollDirection
  scroll_aside : ScrollDirection

-- The events, with the fields that the handlers read. The buttons of a motion are those of `event.state`.
pub data Event : Type 0 where
  key_press : Key → Event
  button_press : ℕ → ℤ → ℤ → Event
  button_release : ℕ → Event
  motion : Bool → Bool → ℤ → ℤ → Event
  scroll : Bool → ScrollDirection → Event

-- A handler's reply, and what it returns: none for None.
abbrev pub Handled : Type 0
Handled = Reply × Option Bool

-- `self.queue_draw(); self.position_changed()`
abbrev pub moved_to : Ratio → Ratio → Widget → Handled
moved_to x y w = (
  record { widget = record w { x = x; y = y }; signals = redraw ∷ position_changed x y ∷ [] },
  some true,
)

abbrev pub quiet : Widget → Option Bool → Handled
quiet w value = (record { widget = w; signals = [] }, value)

-- on_key_press_event, where POS_INCREMENT is 100
unfoldable pub on_key_press_event : Key → Widget → Result Handled
unfolding over subtract
on_key_press_event other w = ok (quiet w (some false))
on_key_press_event left w =
    over (whole (pos 100)) w.zoom_ratio >>= λ d. ok (moved_to (subtract w.x d) w.y w)
on_key_press_event right w =
    over (whole (pos 100)) w.zoom_ratio >>= λ d. ok (moved_to (add_ratio w.x d) w.y w)
on_key_press_event up w =
    over (whole (pos 100)) w.zoom_ratio >>= λ d. ok (moved_to w.x (subtract w.y d) w)
on_key_press_event down w =
    over (whole (pos 100)) w.zoom_ratio >>= λ d. ok (moved_to w.x (add_ratio w.y d) w)

abbrev pub is_panning : ℕ → Bool
is_panning button = button == 2 || button == 1

-- on_area_button_press, less the cursor
unfoldable pub on_area_button_press : ℕ → ℤ → ℤ → Widget → Handled
on_area_button_press button x y w =
    quiet (if is_panning button then record w { mouse = at x y } else w) (some false)

-- on_area_button_release, less the cursor
unfoldable pub on_area_button_release : ℕ → Widget → Handled
on_area_button_release button w =
    if is_panning button
    then quiet (record w { mouse = released }) (some true)
    else quiet w (some false)

-- `pan the image`: None cannot be subtracted from.
unfoldable pub pan : ℤ → ℤ → Widget → Result Handled
unfolding over
pan x y w = elim w.mouse [
  | unset ↦ err attribute_error
  | released ↦ err type_error
  | at px py ↦ over (whole (px -ℤ x)) w.zoom_ratio >>= λ dx.
      over (whole (py -ℤ y)) w.zoom_ratio >>= λ dy.
      ok (moved_to (add_ratio w.x dx) (add_ratio w.y dy) (record w { mouse = at x y }))
]

-- on_area_motion_notify
unfoldable pub on_area_motion_notify : Bool → Bool → ℤ → ℤ → Widget → Result Handled
unfolding pan
on_area_motion_notify button1 button2 x y w =
    if button2 || button1 then pan x y w else ok (quiet w (some true))

-- on_zoom_in and on_zoom_out, where ZOOM_INCREMENT is 1.25
unfoldable pub on_zoom_in : ℕ → Widget → Reply
unfolding zoom_image multiply
on_zoom_in fresh w = zoom_image fresh (multiply w.zoom_ratio (record { num = pos 5; den = 4 })) w

unfoldable pub on_zoom_out : ℕ → Widget → Reply
unfolding zoom_image multiply
on_zoom_out fresh w = zoom_image fresh (multiply w.zoom_ratio (record { num = pos 4; den = 5 })) w

-- on_area_scroll_event
unfoldable pub on_area_scroll_event : ℕ → Bool → ScrollDirection → Widget → Handled
unfolding on_zoom_in on_zoom_out
on_area_scroll_event fresh false direction w = quiet w none
on_area_scroll_event fresh true scroll_up w = (on_zoom_in fresh w, some true)
on_area_scroll_event fresh true scroll_down w = (on_zoom_out fresh w, some true)
on_area_scroll_event fresh true scroll_aside w = quiet w (some false)

-- on_expand and on_contract, with draw.extents
unfoldable pub on_expand : (Ratio → ℤ × ℤ) → ℕ → Widget → Result Reply
unfolding set_xscale multiply
on_expand extents fresh w =
    set_xscale extents fresh (multiply w.xscale (record { num = pos 3; den = 2 })) w

unfoldable pub on_contract : (Ratio → ℤ × ℤ) → ℕ → Widget → Result Reply
unfolding set_xscale multiply
on_contract extents fresh w =
    set_xscale extents fresh (multiply w.xscale (record { num = pos 2; den = 3 })) w

unfoldable pub handle : ℕ → Event → Widget → Result Handled
unfolding on_key_press_event on_area_button_press on_area_button_release on_area_motion_notify
    on_area_scroll_event
handle fresh (key_press key) w = on_key_press_event key w
handle fresh (button_press button x y) w = ok (on_area_button_press button x y w)
handle fresh (button_release button) w = ok (on_area_button_release button w)
handle fresh (motion button1 button2 x y) w = on_area_motion_notify button1 button2 x y w
handle fresh (scroll control direction) w = ok (on_area_scroll_event fresh control direction w)

-- The widget after some events; GTK has created no object from `fresh` on.
unfoldable pub handle_all : ℕ → List Event → Widget → Result Widget
unfolding handle
handle_all fresh [] w = ok w
handle_all fresh (e ∷ es) w = handle fresh e w >>= λ h. handle_all (fresh + 2) es h.0.widget
