-- ===== src/Gui/Window/Laws.antt =====
-- The chart fits into the window that it is fitted to.
use bootchart.Prelude.{ℕ, suc, ◌+◌, ◌*◌, ◌≡◌, refl, ◌∙◌, ap, true, false, arith, [], ◌∷◌, ◌++◌}
use bootchart.Prelude.Int.{pos, ◌*ℤ◌, ◌-ℤ◌, eqb_ℤ, eqb_ℤ_iff}
use bootchart.Prelude.Results.{Result, ok, ◌>>=◌}
use bootchart.Prelude.Products.{mul_pos, add_pos}
use bootchart.Prelude.Ratio.{Ratio, add_ratio, divide_ratio, ratio}
use bootchart.Gui.Widget.{
  multiply, subtract, Widget, Reply, whole, is_equal, over, position_changed,
}
use bootchart.Gui.Scroll.{zoom_to_rect, zoom_image, set_scroll_adjustments}
use bootchart.Gui.Window.{draw, on_zoom_fit}

not_zero : (n : ℕ) → eqb_ℤ (pos (suc n)) (pos 0) ≡ false
not_zero n = ground arith

over_width :
    (k n : ℕ)
    → over (whole (pos k)) (whole (pos (suc n)))
      ≡ ok (record { num = pos (k * 1); den = suc n * 1 })
unfolding over divide_ratio
over_width k n = rw (not_zero n, mul_pos k 1, mul_pos (suc n) 1) (unfold ratio in refl)

nought : (pos 0 -ℤ pos 0) *ℤ pos 1 ≡ pos 0
unfolding ◌*ℤ◌ ◌-ℤ◌
nought = refl

-- Where a place that is `m` to the right of the edge comes to stand.
scaled :
    (m k d : ℕ)
    → multiply (subtract (whole (pos m)) (whole (pos 0))) (record { num = pos k; den = d })
      ≡ record { num = pos (m * k); den = 1 * d }
unfolding multiply subtract add_ratio
scaled m k d =
    rw (nought, mul_pos m 1, add_pos (m * 1) 0, mul_pos (m * 1 + 0) k)
      (ap (λ t. record { num = pos (t * k); den = 1 * d }) (omega arith))

is_equal-whole :
    (a d j : ℕ) → a ≡ j * d → is_equal (record { num = pos a; den = d }) (whole (pos j)) ≡ true
unfolding is_equal
is_equal-whole a d j h =
    rw (mul_pos a 1, mul_pos j d, h)
      ((eqb_ℤ_iff (pos (j * d * 1)) (pos (j * d))).1 (ap pos (omega arith)))

draw-fitted :
    (k n m j : ℕ) (y : Ratio) (w : Widget)
    → m * (k * 1) ≡ j * (1 * (suc n * 1))
    → w.zoom_ratio ≡ record { num = pos (k * 1); den = suc n * 1 }
    → w.x ≡ whole (pos 0)
    → is_equal (draw w (record { x = whole (pos m); y = y })).x (whole (pos j)) ≡ true
unfolding draw
draw-fitted k n m j y w h zoom left =
    rw (zoom, left, scaled m (k * 1) (suc n * 1))
      (is_equal-whole (m * (k * 1)) (1 * (suc n * 1)) j h)

-- What zoom_to_rect leaves for this zoom.
unfoldable fitted : ℕ → Ratio → Widget → Reply
fitted fresh zoom_ratio w =
    let reply : Reply = zoom_image fresh zoom_ratio w in
    record {
      widget = record reply.widget { x = whole (pos 0) };
      signals = reply.signals ++ position_changed (whole (pos 0)) reply.widget.y ∷ [];
    }

fitted-zoom_ratio :
    (fresh : ℕ) (zoom_ratio : Ratio) (w : Widget)
    → (fitted fresh zoom_ratio w).widget.zoom_ratio ≡ zoom_ratio
unfolding fitted zoom_image set_scroll_adjustments
fitted-zoom_ratio fresh zoom_ratio w = refl

on_zoom_fit-fitted :
    (fresh k n : ℕ) (w : Widget)
    → w.chart_width ≡ pos (suc n)
    → on_zoom_fit fresh (pos k) w
      ≡ ok (fitted fresh (record { num = pos (k * 1); den = suc n * 1 }) w)
unfolding on_zoom_fit zoom_to_rect fitted
on_zoom_fit-fitted fresh k n w wide =
    ap (λ (r : Result Ratio). r >>= λ zoom_ratio. ok (fitted fresh zoom_ratio w))
      (ap (λ c. over (whole (pos k)) (whole c)) wide ∙ over_width k n)

-- on_zoom_fit of a chart that has a width gives no exception in a window of any width; after it `draw`
-- brings the left edge of the chart to the left edge of the window, and the right edge to the right one.
pub on_zoom_fit-draw :
    (fresh k n : ℕ) (y : Ratio) (w : Widget)
    → w.chart_width ≡ pos (suc n)
    → (r : Reply) × (on_zoom_fit fresh (pos k) w ≡ ok r)
      × (is_equal (draw r.widget (record { x = whole (pos 0); y = y })).x (whole (pos 0)) ≡ true)
      × (is_equal (draw r.widget (record { x = whole w.chart_width; y = y })).x (whole (pos k))
          ≡ true)
unfolding fitted
on_zoom_fit-draw fresh k n y w wide =
    let zoom : Ratio = record { num = pos (k * 1); den = suc n * 1 } in
    let r : Reply = fitted fresh zoom w in
    (
      r,
      on_zoom_fit-fitted fresh k n w wide,
      draw-fitted k n 0 0 y r.widget (grind arith) (fitted-zoom_ratio fresh zoom w) refl,
      ap (λ c. is_equal (draw r.widget (record { x = whole c; y = y })).x (whole (pos k))) wide
          ∙ draw-fitted k n (suc n) k y r.widget (grind arith) (fitted-zoom_ratio fresh zoom w)
              refl,
    )
