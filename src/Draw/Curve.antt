-- ===== src/Draw/Curve.antt =====
-- draw_chart of draw.py: the curve of some samples in a rectangle. The values are whole multiples of
-- one over `unit`; the coordinates of the curve are quotients with the denominators `x_den` and
-- `y_den`.
pub mod Laws
pub mod Within
use bootchart.Prelude.{Bool, Option, none, some, List, [], ◌∷◌, ◌++◌, map, ◌||◌, if◌then◌else◌}
use bootchart.Prelude.Results.{Result, ok, err, value_error, zero_division, ◌>>=◌}
use bootchart.Prelude.Int.{ℤ, pos, ◌+ℤ◌, ◌-ℤ◌, ◌*ℤ◌, eqb_ℤ, max_ℤ}
use bootchart.Draw.Clip.{Rect}

-- A sample: its time and its value.
pub record Sample : Type 0 where
  pub time : ℤ
  pub value : ℤ

pub record Vertex : Type 0 where
  pub x_num : ℤ
  pub y_num : ℤ

-- The path that is stroked; with `fill`, it is closed along the lower edge and filled.
pub record Curve : Type 0 where
  pub x_den : ℤ
  pub y_den : ℤ
  pub path : List Vertex

-- max of a first element and more
unfoldable pub max_from : ℤ → List ℤ → ℤ
max_from m [] = m
max_from m (x ∷ xs) = max_from (max_ℤ m x) xs

-- The scale of the values: the lower bound and the length of their range.
pub record Range : Type 0 where
  pub base : ℤ
  pub span : ℤ

-- transform_point_coords
unfoldable pub transform_point_coords : Rect → ℤ → ℤ → Range → Sample → Vertex
transform_point_coords bounds x_shift max_x range s = record {
  x_num = (s.time -ℤ x_shift) *ℤ bounds.w +ℤ bounds.x *ℤ max_x;
  y_num = pos 0 -ℤ (s.value -ℤ range.base) *ℤ bounds.h +ℤ (bounds.y +ℤ bounds.h) *ℤ range.span;
}

-- A given range, or all from nought to the greatest value, or to 1.0 in place of a greatest value of 0.
unfoldable pub range_of : ℤ → Option (ℤ × ℤ) → ℤ → Range
range_of unit (some (low, high)) max_y = record { base = low; span = high -ℤ low }
range_of unit none max_y = record {
  base = pos 0;
  span = if eqb_ℤ max_y (pos 0) then unit else max_y;
}

unfoldable pub last_of : Sample → List Sample → Sample
last_of s [] = s
last_of s (t ∷ ts) = last_of t ts

-- The corners behind the curve where it is filled.
unfoldable pub closing : Rect → Range → Vertex → Vertex → List Vertex
closing bounds range first last =
    let ground : ℤ = (bounds.y +ℤ bounds.h) *ℤ range.span in
    record { x_num = last.x_num; y_num = ground }
    ∷ record { x_num = first.x_num; y_num = ground }
    ∷ first
    ∷ []

-- The path of the samples from `s` on: to the first one, and to each of them.
unfoldable pub path_of : Bool → Rect → ℤ → ℤ → Range → Sample → List Sample → List Vertex
unfolding transform_point_coords last_of closing
path_of fill bounds x_shift max_x range s ss =
    let place : Sample → Vertex = transform_point_coords bounds x_shift max_x range in
    let path : List Vertex = place s ∷ map place (s ∷ ss) in
    if fill then path ++ closing bounds range (place s) (place (last_of s ss)) else path

-- The part behind the two maxima: a greatest time of 0 and an empty range raise.
unfoldable pub plot : Bool → Rect → ℤ → ℤ → Range → Sample → List Sample → Result Curve
unfolding path_of
plot fill bounds x_shift max_x range s ss =
    if eqb_ℤ max_x (pos 0) || eqb_ℤ range.span (pos 0)
    then err zero_division
    else ok (record {
      x_den = max_x;
      y_den = range.span;
      path = path_of fill bounds x_shift max_x range s ss;
    })

-- draw_chart; `max` raises where there is no sample.
unfoldable pub draw_chart : ℤ → Bool → Rect → List Sample → ℤ → Option (ℤ × ℤ) → Result Curve
unfolding max_from range_of plot
draw_chart unit fill bounds [] x_shift data_range = err value_error
draw_chart unit fill bounds (s ∷ ss) x_shift data_range =
    let max_x : ℤ = max_from s.time (map (λ (t : Sample). t.time) ss) in
    let max_y : ℤ = max_from s.value (map (λ (t : Sample). t.value) ss) in
    plot fill bounds x_shift max_x (range_of unit data_range max_y) s ss
