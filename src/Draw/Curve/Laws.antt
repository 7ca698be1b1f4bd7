-- ===== src/Draw/Curve/Laws.antt =====
-- The curve stays in its rectangle.
use bootchart.Prelude.{◌+◌, ◌*◌, ◌≤◌, Bool, true, false, arith, List, [], ◌∷◌, ◌++◌, map}
use bootchart.Prelude.Int.{ℤ, pos, negsuc, ◌+ℤ◌, ◌-ℤ◌, ◌*ℤ◌, ◌≤ℤ◌, int_laws, ≤ℤ_trans}
use bootchart.Prelude.Products.{mul_pos, add_pos, times_mono}
use bootchart.Draw.Clip.{Rect}
use bootchart.Draw.Curve.{Sample, Vertex, Range, transform_point_coords, last_of, closing, path_of}

-- One coordinate: `a` of `b` parts of a length `l` from `z` on.
along :
    (z l a b : ℤ)
    → pos 0 ≤ℤ z
    → pos 0 ≤ℤ l
    → pos 0 ≤ℤ a
    → a ≤ℤ b
    → (z *ℤ b ≤ℤ a *ℤ l +ℤ z *ℤ b) × (a *ℤ l +ℤ z *ℤ b ≤ℤ (z +ℤ l) *ℤ b)
along (negsuc z) l a b hz hl ha le = absurd (omega (arith, hz))
along (pos z) (negsuc l) a b hz hl ha le = absurd (omega (arith, hl))
along (pos z) (pos l) (negsuc a) b hz hl ha le = absurd (omega (arith, ha))
along (pos z) (pos l) (pos a) (negsuc b) hz hl ha le = absurd (omega (arith, le))
along (pos z) (pos l) (pos a) (pos b) hz hl ha le =
    let area : a * l ≤ b * l = times_mono a b l (omega (arith, le)) in
    rw (mul_pos z b, mul_pos a l, add_pos z l, mul_pos (z + l) b)
      (omega int_laws, omega (int_laws, area))

-- The same from the other end.
against :
    (z l a b : ℤ)
    → pos 0 ≤ℤ z
    → pos 0 ≤ℤ l
    → pos 0 ≤ℤ a
    → a ≤ℤ b
    → (z *ℤ b ≤ℤ pos 0 -ℤ a *ℤ l +ℤ (z +ℤ l) *ℤ b)
      × (pos 0 -ℤ a *ℤ l +ℤ (z +ℤ l) *ℤ b ≤ℤ (z +ℤ l) *ℤ b)
against (negsuc z) l a b hz hl ha le = absurd (omega (arith, hz))
against (pos z) (negsuc l) a b hz hl ha le = absurd (omega (arith, hl))
against (pos z) (pos l) (negsuc a) b hz hl ha le = absurd (omega (arith, ha))
against (pos z) (pos l) (pos a) (negsuc b) hz hl ha le = absurd (omega (arith, le))
against (pos z) (pos l) (pos a) (pos b) hz hl ha le =
    let area : a * l ≤ b * l = times_mono a b l (omega (arith, le)) in
    rw (mul_pos z b, mul_pos a l, add_pos z l, mul_pos (z + l) b)
      (omega (int_laws, area), omega int_laws)

-- Within the rectangle, in parts of `x_den` and `y_den`.
pub record IsIn (bounds : Rect) (x_den y_den : ℤ) (v : Vertex) : Type 0 where
  pub left : bounds.x *ℤ x_den ≤ℤ v.x_num
  pub right : v.x_num ≤ℤ (bounds.x +ℤ bounds.w) *ℤ x_den
  pub above : bounds.y *ℤ y_den ≤ℤ v.y_num
  pub below : v.y_num ≤ℤ (bounds.y +ℤ bounds.h) *ℤ y_den

abbrev pub AllIn : Rect → ℤ → ℤ → List Vertex → Type 0
AllIn bounds x_den y_den [] = Unit
AllIn bounds x_den y_den (v ∷ vs) = IsIn bounds x_den y_den v × AllIn bounds x_den y_den vs

-- A sample that lies in the time and in the range of the chart.
abbrev pub IsShown : ℤ → ℤ → Range → Sample → Type 0
IsShown x_shift max_x range s =
    (pos 0 ≤ℤ s.time -ℤ x_shift)
    × (s.time -ℤ x_shift ≤ℤ max_x)
    × (pos 0 ≤ℤ s.value -ℤ range.base)
    × (s.value -ℤ range.base ≤ℤ range.span)

abbrev pub AllShown : ℤ → ℤ → Range → List Sample → Type 0
AllShown x_shift max_x range [] = Unit
AllShown x_shift max_x range (s ∷ ss) =
    IsShown x_shift max_x range s × AllShown x_shift max_x range ss

-- A rectangle of no negative place or size.
abbrev pub IsProper : Rect → Type 0
IsProper bounds =
    (pos 0 ≤ℤ bounds.x) × (pos 0 ≤ℤ bounds.y) × (pos 0 ≤ℤ bounds.w) × (pos 0 ≤ℤ bounds.h)

module _ (bounds : Rect) (x_shift max_x : ℤ) (range : Range) (proper : IsProper bounds) where
  transform_point_coords-IsIn :
      (s : Sample)
      → IsShown x_shift max_x range s
      → IsIn bounds max_x range.span (transform_point_coords bounds x_shift max_x range s)
  unfolding transform_point_coords
  transform_point_coords-IsIn s (after, before, low, high) =
      let across =
        along bounds.x bounds.w (s.time -ℤ x_shift) max_x proper.0 proper.2 after before in
      let up =
        against bounds.y bounds.h (s.value -ℤ range.base) range.span proper.1 proper.3 low high in
      record { left = across.0; right = across.1; above = up.0; below = up.1 }

  map-AllIn :
      (ss : List Sample)
      → AllShown x_shift max_x range ss
      → AllIn bounds max_x range.span (map (transform_point_coords bounds x_shift max_x range) ss)
  map-AllIn [] h = tt
  map-AllIn (s ∷ ss) h = (transform_point_coords-IsIn s h.0, map-AllIn ss h.1)

  last_of-IsShown :
      (s : Sample) (ss : List Sample)
      → AllShown x_shift max_x range (s ∷ ss)
      → IsShown x_shift max_x range (last_of s ss)
  unfolding last_of
  last_of-IsShown s [] h = h.0
  last_of-IsShown s (t ∷ ts) h = last_of-IsShown t ts h.1

  AllIn-append :
      (xs ys : List Vertex)
      → AllIn bounds max_x range.span xs
      → AllIn bounds max_x range.span ys
      → AllIn bounds max_x range.span (xs ++ ys)
  AllIn-append [] ys h k = k
  AllIn-append (x ∷ xs) ys h k = (h.0, AllIn-append xs ys h.1 k)

  closing-AllIn :
      (first last : Vertex)
      → IsIn bounds max_x range.span first
      → IsIn bounds max_x range.span last
      → AllIn bounds max_x range.span (closing bounds range first last)
  unfolding closing
  closing-AllIn first last h k =
      let low = ≤ℤ_trans (bounds.y *ℤ range.span) first.y_num _ h.above h.below in
      (
        record { left = k.left; right = k.right; above = low; below = omega arith },
        (record { left = h.left; right = h.right; above = low; below = omega arith }, (h, tt)),
      )

  pub path_of-AllIn :
      (fill : Bool) (s : Sample) (ss : List Sample)
      → AllShown x_shift max_x range (s ∷ ss)
      → AllIn bounds max_x range.span (path_of fill bounds x_shift max_x range s ss)
  unfolding path_of
  path_of-AllIn false s ss h = (transform_point_coords-IsIn s h.0, map-AllIn (s ∷ ss) h)
  path_of-AllIn true s ss h =
      let first = transform_point_coords-IsIn s h.0 in
      let last = transform_point_coords-IsIn (last_of s ss) (last_of-IsShown s ss h) in
      let place : Sample → Vertex = transform_point_coords bounds x_shift max_x range in
      let corners : List Vertex = closing bounds range (place s) (place (last_of s ss)) in
      (
        first,
        AllIn-append (map place (s ∷ ss)) corners (map-AllIn (s ∷ ss) h)
            (closing-AllIn (place s) (place (last_of s ss)) first last),
      )
