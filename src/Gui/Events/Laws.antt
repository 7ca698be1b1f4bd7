-- ===== src/Gui/Events/Laws.antt =====
-- The mouse and keyboard with one panning button at a time.
use bootchart.Prelude.{
  ℕ, ◌+◌, ◌≡◌, refl, ◌∙◌, inl, inr, Bool, true, false, ◌||◌, ◌==◌, List, [], ◌∷◌, Option, none,
  some, Bool-cases, arith,
}
use bootchart.Prelude.Results.{Result, ok}
use bootchart.Prelude.Int.{ℤ, pos, negsuc, ◌-ℤ◌, ◌*ℤ◌, eqb_ℤ, eqb_ℤ_iff, parts_of_eq}
use bootchart.Prelude.Ratio.{Ratio, add_ratio, divide_ratio}
use bootchart.Gui.Widget.{released, at, Widget, over, multiply, subtract, whole}
use bootchart.Gui.Scroll.{zoom_image, set_scroll_adjustments}
use bootchart.Gui.Events.{
  Key, ScrollDirection, scroll_up, scroll_down, scroll_aside, Event, key_press, button_press,
  button_release, motion, scroll, left, right, up, down, other, Handled, quiet, moved_to,
  is_panning, pan, on_area_motion_notify, on_key_press_event, on_area_button_press,
  on_area_button_release, on_area_scroll_event, on_zoom_in, on_zoom_out, handle, handle_all,
}

-- Events of a mouse of which at most one of the panning buttons is down at a time, the one that is
-- `held`: the motions report it, other buttons, keys and the wheel go on as they like.
pub data OneAtATime : Option ℕ → List Event → Type 0 where
  no_more : {held : Option ℕ} → OneAtATime held []
  key :
      {held : Option ℕ} {es : List Event} (k : Key)
      → OneAtATime held es
      → OneAtATime held (key_press k ∷ es)
  wheel :
      {held : Option ℕ} {es : List Event} (control : Bool) (direction : ScrollDirection)
      → OneAtATime held es
      → OneAtATime held (scroll control direction ∷ es)
  hover :
      {es : List Event} (x y : ℤ)
      → OneAtATime none es
      → OneAtATime none (motion false false x y ∷ es)
  press :
      {es : List Event} (button : ℕ) (x y : ℤ)
      → is_panning button ≡ true
      → OneAtATime (some button) es
      → OneAtATime none (button_press button x y ∷ es)
  drag :
      {es : List Event} (button : ℕ) (x y : ℤ)
      → OneAtATime (some button) es
      → OneAtATime (some button) (motion (button == 1) (button == 2) x y ∷ es)
  release :
      {es : List Event} (button : ℕ)
      → OneAtATime none es
      → OneAtATime (some button) (button_release button ∷ es)
  other_press :
      {held : Option ℕ} {es : List Event} (button : ℕ) (x y : ℤ)
      → is_panning button ≡ false
      → OneAtATime held es
      → OneAtATime held (button_press button x y ∷ es)
  other_release :
      {held : Option ℕ} {es : List Event} (button : ℕ)
      → is_panning button ≡ false
      → OneAtATime held es
      → OneAtATime held (button_release button ∷ es)

-- The zoom ratio is not zero, and the mouse has a position while a button is held.
abbrev pub Ready : Option ℕ → Widget → Type 0
Ready none w = ¬ (w.zoom_ratio.num ≡ pos 0)
Ready (some button) w = (¬ (w.zoom_ratio.num ≡ pos 0)) × (x : ℤ) × (y : ℤ) × (w.mouse ≡ at x y)

over_ok : (a b : Ratio) → ¬ (b.num ≡ pos 0) → over a b ≡ ok (divide_ratio a b)
unfolding over
over_ok a b apart =
    let no : eqb_ℤ b.num (pos 0) ≡ false = grind (arith, eqb_ℤ_iff b.num (pos 0)) in rw no refl

five_apart : (a : ℤ) → ¬ (a ≡ pos 0) → ¬ (a *ℤ pos 5 ≡ pos 0)
unfolding ◌*ℤ◌
five_apart (pos n) apart zero = ground (arith, parts_of_eq zero)
five_apart (negsuc n) apart zero = ground (arith, parts_of_eq zero)

four_apart : (a : ℤ) → ¬ (a ≡ pos 0) → ¬ (a *ℤ pos 4 ≡ pos 0)
unfolding ◌*ℤ◌
four_apart (pos n) apart zero = ground (arith, parts_of_eq zero)
four_apart (negsuc n) apart zero = ground (arith, parts_of_eq zero)

-- A handler that leaves the zoom ratio and the mouse.
abbrev Passes : Widget → Result Handled → Type 0
Passes w r =
    (h : Handled) × (r ≡ ok h)
    × (h.0.widget.zoom_ratio ≡ w.zoom_ratio)
    × (h.0.widget.mouse ≡ w.mouse)

on_key_press_event-Passes :
    (k : Key) (w : Widget) → ¬ (w.zoom_ratio.num ≡ pos 0) → Passes w (on_key_press_event k w)
unfolding on_key_press_event
on_key_press_event-Passes other w apart = (quiet w (some false), refl, refl, refl)
on_key_press_event-Passes left w apart =
    let d = divide_ratio (whole (pos 100)) w.zoom_ratio in
    (
      moved_to (subtract w.x d) w.y w,
      rw (over_ok (whole (pos 100)) w.zoom_ratio apart) refl,
      refl,
      refl,
    )
on_key_press_event-Passes right w apart =
    let d = divide_ratio (whole (pos 100)) w.zoom_ratio in
    (
      moved_to (add_ratio w.x d) w.y w,
      rw (over_ok (whole (pos 100)) w.zoom_ratio apart) refl,
      refl,
      refl,
    )
on_key_press_event-Passes up w apart =
    let d = divide_ratio (whole (pos 100)) w.zoom_ratio in
    (
      moved_to w.x (subtract w.y d) w,
      rw (over_ok (whole (pos 100)) w.zoom_ratio apart) refl,
      refl,
      refl,
    )
on_key_press_event-Passes down w apart =
    let d = divide_ratio (whole (pos 100)) w.zoom_ratio in
    (
      moved_to w.x (add_ratio w.y d) w,
      rw (over_ok (whole (pos 100)) w.zoom_ratio apart) refl,
      refl,
      refl,
    )

-- A motion while the mouse has a position.
on_area_motion_notify_ok :
    (button1 button2 : Bool) (x y px py : ℤ) (w : Widget)
    → ¬ (w.zoom_ratio.num ≡ pos 0)
    → w.mouse ≡ at px py
    → (h : Handled) × (on_area_motion_notify button1 button2 x y w ≡ ok h)
      × (h.0.widget.zoom_ratio ≡ w.zoom_ratio)
      × (qx : ℤ) × (qy : ℤ) × (h.0.widget.mouse ≡ at qx qy)
unfolding on_area_motion_notify pan
on_area_motion_notify_ok button1 button2 x y px py w apart at_p =
    elim (Bool-cases (button2 || button1)) [
      | inl e ↦
          let dx = divide_ratio (whole (px -ℤ x)) w.zoom_ratio in
          let dy = divide_ratio (whole (py -ℤ y)) w.zoom_ratio in
          (
            moved_to (add_ratio w.x dx) (add_ratio w.y dy) (record w { mouse = at x y }),
            rw
                (
                  e,
                  pan,
                  at_p,
                  over_ok (whole (px -ℤ x)) w.zoom_ratio apart,
                  over_ok (whole (py -ℤ y)) w.zoom_ratio apart,
                )
                refl,
            refl,
            x,
            y,
            refl,
          )
      | inr e ↦ (quiet w (some true), rw e refl, refl, px, py, at_p)
    ]

-- The wheel keeps the zoom ratio from zero, and the mouse.
on_area_scroll_event_ok :
    (fresh : ℕ) (control : Bool) (direction : ScrollDirection) (w : Widget)
    → ¬ (w.zoom_ratio.num ≡ pos 0)
    → (¬ ((on_area_scroll_event fresh control direction w).0.widget.zoom_ratio.num ≡ pos 0))
      × ((on_area_scroll_event fresh control direction w).0.widget.mouse ≡ w.mouse)
unfolding on_area_scroll_event on_zoom_in on_zoom_out multiply zoom_image set_scroll_adjustments
on_area_scroll_event_ok fresh false direction w apart = (apart, refl)
on_area_scroll_event_ok fresh true scroll_up w apart = (five_apart w.zoom_ratio.num apart, refl)
on_area_scroll_event_ok fresh true scroll_down w apart = (four_apart w.zoom_ratio.num apart, refl)
on_area_scroll_event_ok fresh true scroll_aside w apart = (apart, refl)

Ready-zoom : (held : Option ℕ) (w : Widget) → Ready held w → ¬ (w.zoom_ratio.num ≡ pos 0)
Ready-zoom none w ready = ready
Ready-zoom (some button) w (apart, x, y, at_p) = apart

Ready-keep :
    (held : Option ℕ) (w w' : Widget)
    → ¬ (w'.zoom_ratio.num ≡ pos 0)
    → w'.mouse ≡ w.mouse
    → Ready held w
    → Ready held w'
Ready-keep none w w' apart same ready = apart
Ready-keep (some button) w w' apart same (_, x, y, at_p) = (apart, x, y, same ∙ at_p)

-- From a widget whose zoom ratio is not zero and whose mouse has a position if a button is held, every
-- sequence of key, wheel and mouse events in which at most one of the panning buttons 1 and 2 is down at a
-- time is handled without an exception: no pan subtracts from a missing position, and no quotient by the
-- zoom ratio has a zero divisor.
pub handle_all-returns :
    {held : Option ℕ} {es : List Event} (fresh : ℕ) (w : Widget)
    → OneAtATime held es
    → Ready held w
    → (w' : Widget) × (handle_all fresh es w ≡ ok w')
unfolding handle_all handle on_area_button_press on_area_button_release
handle_all-returns fresh w no_more ready = (w, refl)
handle_all-returns fresh w (key {held = held} k later) ready =
    let zoom = Ready-zoom held w ready in
    let (h, e, same_zoom, same) = on_key_press_event-Passes k w zoom in
    let zoom' : ¬ (h.0.widget.zoom_ratio.num ≡ pos 0) = rw same_zoom zoom in
    let (w', rest) =
      handle_all-returns (fresh + 2) h.0.widget later
        (Ready-keep held w h.0.widget zoom' same ready) in
    (w', rw e rest)
handle_all-returns fresh w (wheel {held = held} control direction later) ready =
    let next = (on_area_scroll_event fresh control direction w).0.widget in
    let (zoom, same) =
      on_area_scroll_event_ok fresh control direction w (Ready-zoom held w ready) in
    handle_all-returns (fresh + 2) next later (Ready-keep held w next zoom same ready)
handle_all-returns fresh w (hover x y later) ready = handle_all-returns (fresh + 2) w later ready
handle_all-returns fresh w (press button x y panning later) ready =
    rw panning
      (handle_all-returns (fresh + 2) (record w { mouse = at x y }) later (ready, x, y, refl))
handle_all-returns fresh w (drag button x y later) (apart, px, py, at_p) =
    let (h, e, same_zoom, qx, qy, at_q) =
      on_area_motion_notify_ok (button == 1) (button == 2) x y px py w apart at_p in
    let zoom' : ¬ (h.0.widget.zoom_ratio.num ≡ pos 0) = rw same_zoom apart in
    let (w', rest) = handle_all-returns (fresh + 2) h.0.widget later (zoom', qx, qy, at_q) in
    (w', rw e rest)
handle_all-returns fresh w (release button later) (apart, px, py, at_p) =
    elim (Bool-cases (is_panning button)) [
      | inl e ↦
          rw (on_area_button_release, e)
            (handle_all-returns (fresh + 2) (record w { mouse = released }) later apart)
      | inr e ↦ rw (on_area_button_release, e) (handle_all-returns (fresh + 2) w later apart)
    ]
handle_all-returns fresh w (other_press {held = held} button x y aside later) ready =
    rw aside (handle_all-returns (fresh + 2) w later ready)
handle_all-returns fresh w (other_release {held = held} button aside later) ready =
    rw (on_area_button_release, aside) (handle_all-returns (fresh + 2) w later ready)
