-- ===== src/Draw/Boxes/Laws.antt =====
-- Where the boxes of the processes and their labels stand.
use bootchart.Prelude.{branches, ◌≡◌, refl, ◌⊎◌, inl, inr}
use bootchart.Prelude.Int.{ℤ, pos, ◌+ℤ◌, ◌-ℤ◌, ◌*ℤ◌, ◌≤ℤ◌, int_laws, ltb_ℤ, ltb_ℤ→ge}
use bootchart.Prelude.Products.{times_parts}
use bootchart.Draw.Boxes.{middle_or_behind, draw_label_in_box}

-- A label stands within its box with five pixels on both sides, or five pixels behind it, or five
-- pixels before it.
abbrev pub IsPlaced : ℤ → ℤ → ℤ → ℤ → ℤ → Type 0
IsPlaced pixel label_w x w start =
    ((pos 2 *ℤ x +ℤ pos 10 *ℤ pixel ≤ℤ start)
      × (start +ℤ pos 2 *ℤ label_w +ℤ pos 10 *ℤ pixel ≤ℤ pos 2 *ℤ x +ℤ pos 2 *ℤ w))
    ⊎ (start ≡ pos 2 *ℤ (x +ℤ w +ℤ pos 5 *ℤ pixel))
    ⊎ (start +ℤ pos 2 *ℤ label_w ≡ pos 2 *ℤ (x -ℤ pos 5 *ℤ pixel))

ruleset scaled = (int_laws, times_parts)

middle_or_behind-IsPlaced :
    (pixel label_w x w : ℤ) → IsPlaced pixel label_w x w (middle_or_behind pixel label_w x w)
unfolding middle_or_behind
middle_or_behind-IsPlaced pixel label_w x w =
    let end' : ℤ = label_w +ℤ pos 10 *ℤ pixel in
    branches (IsPlaced pixel label_w x w) (ltb_ℤ w end') (λ e. inr (inl refl))
      (λ e. let wide = ltb_ℤ→ge w end' e in inl (omega (scaled, wide), omega (scaled, wide)))

pub draw_label_in_box-IsPlaced :
    (pixel label_w x w maxx : ℤ)
    → IsPlaced pixel label_w x w (draw_label_in_box pixel label_w x w maxx)
unfolding draw_label_in_box
draw_label_in_box-IsPlaced pixel label_w x w maxx =
    let label_x : ℤ = middle_or_behind pixel label_w x w in
    branches (IsPlaced pixel label_w x w) (ltb_ℤ (pos 2 *ℤ maxx) (label_x +ℤ pos 2 *ℤ label_w))
      (λ e. inr (inr (omega scaled))) (λ e. middle_or_behind-IsPlaced pixel label_w x w)

pub draw_label_in_box-ends :
    (pixel label_w x w maxx : ℤ)
    → x ≤ℤ maxx
    → pos 0 ≤ℤ pixel
    → draw_label_in_box pixel label_w x w maxx +ℤ pos 2 *ℤ label_w ≤ℤ pos 2 *ℤ maxx
unfolding draw_label_in_box
draw_label_in_box-ends pixel label_w x w maxx le positive =
    let label_x : ℤ = middle_or_behind pixel label_w x w in
    let end' : ℤ = label_x +ℤ pos 2 *ℤ label_w in
    branches (λ start. start +ℤ pos 2 *ℤ label_w ≤ℤ pos 2 *ℤ maxx) (ltb_ℤ (pos 2 *ℤ maxx) end')
      (λ e. omega scaled) (λ e. ltb_ℤ→ge (pos 2 *ℤ maxx) end' e)
