-- ===== src/Draw/Clip.antt =====
-- clip_visible of draw.py. A rectangle is (x, y, width, height), in whole pixels.
pub mod Laws
use bootchart.Prelude.{Bool, ◌&&◌}
use bootchart.Prelude.Int.{ℤ, ◌+ℤ◌, min_ℤ, max_ℤ, ltb_ℤ}

pub record Rect : Type 0 where
  pub x : ℤ
  pub y : ℤ
  pub w : ℤ
  pub h : ℤ

unfoldable pub clip_visible : Rect → Rect → Bool
clip_visible clip rect =
    let xmax : ℤ = max_ℤ clip.x rect.x in
    let ymax : ℤ = max_ℤ clip.y rect.y in
    let xmin : ℤ = min_ℤ (clip.x +ℤ clip.w) (rect.x +ℤ rect.w) in
    let ymin : ℤ = min_ℤ (clip.y +ℤ clip.h) (rect.y +ℤ rect.h) in ltb_ℤ xmax xmin && ltb_ℤ ymax ymin
