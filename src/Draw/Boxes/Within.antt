-- ===== src/Draw/Boxes/Within.antt =====
-- Every box stands between the left and the right edge of the chart, and every connection is a line of
-- horizontal and vertical pieces from a child to its parent.
use bootchart.Prelude.{
  ℕ, ◌+◌, ◌*◌, ◌≤◌, ◌≡◌, refl, ◌⊎◌, inl, inr, arith, List, [], ◌∷◌, ◌++◌, ltb, Bool-cases, ◌&&◌,
}
use bootchart.Prelude.Int.{ℤ, pos, negsuc, ◌+ℤ◌, ◌-ℤ◌, ◌*ℤ◌, ◌≤ℤ◌, int_laws, ltb_ℤ}
use bootchart.Prelude.Products.{mul_pos, add_pos, times_mono}
use bootchart.Samples.{Process}
use bootchart.Tree.Forest.{Forest, nil, node, processes, num_nodes}
use bootchart.Draw.Sizes.{proc_h}
use bootchart.Draw.Boxes.{
  View, Box, Point, Item, process_box, connection, draw_process_connecting_lines, pixel_of, over,
  box_x, box_w, box_of, draw_subtrees, draw_trees, label_of,
}
use bootchart.Draw.Boxes.Laws.{IsPlaced, draw_label_in_box-IsPlaced, draw_label_in_box-ends}

-- A run from `q` on of length `n`, within the duration `d`, on a chart from `x` on of the width `w`.
span :
    (x w q n d : ℤ)
    → pos 0 ≤ℤ x
    → pos 0 ≤ℤ w
    → pos 0 ≤ℤ q
    → pos 0 ≤ℤ n
    → q +ℤ n ≤ℤ d
    → (x *ℤ pixel_of d ≤ℤ x *ℤ pixel_of d +ℤ over d (q *ℤ w))
      × (pos 0 ≤ℤ over d (n *ℤ w))
      × (x *ℤ pixel_of d +ℤ over d (q *ℤ w) +ℤ over d (n *ℤ w) ≤ℤ (x +ℤ w) *ℤ pixel_of d)
      × (pos 0 ≤ℤ pixel_of d)
unfolding pixel_of over
span (negsuc x) w q n d hx hw hq hn le = absurd (omega (arith, hx))
span (pos x) (negsuc w) q n d hx hw hq hn le = absurd (omega (arith, hw))
span (pos x) (pos w) (negsuc q) n d hx hw hq hn le = absurd (omega (arith, hq))
span (pos x) (pos w) (pos q) (negsuc n) d hx hw hq hn le = absurd (omega (arith, hn))
span (pos x) (pos w) (pos q) (pos n) (negsuc d) hx hw hq hn le = absurd (omega (int_laws, le))
span (pos x) (pos w) (pos q) (pos n) (pos d) hx hw hq hn le =
    let area : q * w + n * w ≤ d * w =
      omega (arith, times_mono (q + n) d w (omega (int_laws, le))) in
    rw (mul_pos x d, mul_pos q w, mul_pos n w, add_pos x w, mul_pos (x + w) d)
      (omega int_laws, omega arith, omega (int_laws, area), omega arith)

-- Each point is straight beside, above or below the one before.
abbrev pub IsStepped : List Point → Type 0
IsStepped [] = Unit
IsStepped (a ∷ []) = Unit
IsStepped (a ∷ b ∷ rest) = ((a.x ≡ b.x) ⊎ (a.y ≡ b.y)) × IsStepped (b ∷ rest)

draw_process_connecting_lines-IsStepped :
    (pixel px : ℤ) (py : ℕ) (x : ℤ) (y : ℕ)
    → IsStepped (draw_process_connecting_lines pixel px py x y)
unfolding draw_process_connecting_lines
draw_process_connecting_lines-IsStepped pixel px py x y =
    let apart : ℤ = px -ℤ x in
    elim (Bool-cases (ltb_ℤ apart (pos 3 *ℤ pixel) && ltb_ℤ (pos 0 -ℤ apart) (pos 3 *ℤ pixel))) [
      | inl e ↦ rw e (inr refl, (inl refl, (inr refl, tt)))
      | inr e ↦ rw e (inr refl, (inl refl, tt))
    ]

-- A box between the left and the right edge of the chart, with a label in its row that does not pass the
-- right edge.
pub record IsInside (view : View) (b : Box) : Type 0 where
  pub from_left : view.rect.x *ℤ pixel_of view.duration ≤ℤ b.x
  pub wide : pos 0 ≤ℤ b.w
  pub to_right : b.x +ℤ b.w ≤ℤ (view.rect.x +ℤ view.rect.w) *ℤ pixel_of view.duration
  pub labelled :
      IsPlaced
        (pixel_of view.duration)
        (pos b.label.width *ℤ pixel_of view.duration)
        b.x
        b.w
        b.label.start
  pub label_to_right :
      b.label.start +ℤ pos 2 *ℤ (pos b.label.width *ℤ pixel_of view.duration)
      ≤ℤ pos 2 *ℤ ((view.rect.x +ℤ view.rect.w) *ℤ pixel_of view.duration)
  pub label_from_top : b.y ≤ b.label.y
  pub label_to_bottom : b.label.y ≤ b.y + proc_h

abbrev pub AllWithin : View → List Item → Type 0
AllWithin view [] = Unit
AllWithin view (process_box b ∷ items) = IsInside view b × AllWithin view items
AllWithin view (connection ps ∷ items) = IsStepped ps × AllWithin view items

AllWithin-append :
    (view : View) (xs ys : List Item)
    → AllWithin view xs
    → AllWithin view ys
    → AllWithin view (xs ++ ys)
AllWithin-append view [] ys h k = k
AllWithin-append view (process_box b ∷ xs) ys h k = (h.0, AllWithin-append view xs ys h.1 k)
AllWithin-append view (connection ps ∷ xs) ys h k = (h.0, AllWithin-append view xs ys h.1 k)

module _ {V : Type 0} where
  -- A run that begins and ends in the time of the chart.
  abbrev pub RunsWithin : View → Process V → Type 0
  RunsWithin view p =
      (pos 0 ≤ℤ p.start_time -ℤ view.start_time)
      × (pos 0 ≤ℤ p.duration)
      × (p.start_time -ℤ view.start_time +ℤ p.duration ≤ℤ view.duration)

  abbrev pub AllRunWithin : View → List (Process V) → Type 0
  AllRunWithin view [] = Unit
  AllRunWithin view (p ∷ ps) = RunsWithin view p × AllRunWithin view ps

  AllRunWithin-parts :
      (view : View) (xs ys : List (Process V))
      → AllRunWithin view (xs ++ ys)
      → AllRunWithin view xs × AllRunWithin view ys
  AllRunWithin-parts view [] ys h = (tt, h)
  AllRunWithin-parts view (x ∷ xs) ys h =
      let rest = AllRunWithin-parts view xs ys h.1 in ((h.0, rest.0), rest.1)

  module _ (view : View) (left : pos 0 ≤ℤ view.rect.x) (wide : pos 0 ≤ℤ view.rect.w) where
    box_of-IsInside : (p : Process V) (y : ℕ) → RunsWithin view p → IsInside view (box_of view p y)
    unfolding box_of box_x box_w
    box_of-IsInside p y (after, long, before) =
        let (from_left, positive, to_right, pixels) =
          span view.rect.x view.rect.w (p.start_time -ℤ view.start_time) p.duration view.duration
            left wide after long before in
        let pixel : ℤ = pixel_of view.duration in
        let maxx : ℤ = (view.rect.x +ℤ view.rect.w) *ℤ pixel in
        let label_w : ℤ = pos (view.text_width (label_of view p)) *ℤ pixel in
        let inside : box_x view p ≤ℤ maxx = omega (int_laws, positive, to_right) in
        record {
          from_left = from_left;
          wide = positive;
          to_right = to_right;
          labelled = draw_label_in_box-IsPlaced pixel label_w (box_x view p) (box_w view p) maxx;
          label_to_right =
              draw_label_in_box-ends pixel label_w (box_x view p) (box_w view p) maxx inside pixels;
          label_from_top = omega arith;
          label_to_bottom = omega arith;
        }

    draw_subtrees-AllWithin :
        (px : ℤ) (py next_y : ℕ) (f : Forest V)
        → AllRunWithin view (processes f)
        → AllWithin view (draw_subtrees view px py next_y f)
    unfolding draw_subtrees processes
    draw_subtrees-AllWithin px py next_y nil h = tt
    draw_subtrees-AllWithin px py next_y (node p c r) h =
        let (below, rest) = AllRunWithin-parts view (processes c) (processes r) h.1 in
        let left_below = draw_subtrees-AllWithin (box_x view p) next_y (next_y + proc_h) c below in
        let left_rest =
          draw_subtrees-AllWithin px py (next_y + proc_h * num_nodes (node p c nil)) r rest in
        elim (Bool-cases (ltb view.bottom next_y)) [
          | inl e ↦ rw e tt
          | inr e ↦ rw e (
            box_of-IsInside p next_y h.0,
            AllWithin-append view _ _ left_below (
              draw_process_connecting_lines-IsStepped (pixel_of view.duration) px py (box_x view p)
                  next_y,
              left_rest,
            ),
          )
        ]

    pub draw_trees-AllWithin :
        (y : ℕ) (f : Forest V)
        → AllRunWithin view (processes f)
        → AllWithin view (draw_trees view y f)
    unfolding draw_trees processes
    draw_trees-AllWithin y nil h = tt
    draw_trees-AllWithin y (node p c r) h =
        let (below, rest) = AllRunWithin-parts view (processes c) (processes r) h.1 in
        let left_below = draw_subtrees-AllWithin (box_x view p) y (y + proc_h) c below in
        let left_rest = draw_trees-AllWithin (y + proc_h * num_nodes (node p c nil)) r rest in
        (box_of-IsInside p y h.0, AllWithin-append view _ _ left_below left_rest)
