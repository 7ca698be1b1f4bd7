-- ===== src/Draw/Clip/Laws.antt =====
-- When two rectangles meet.
use bootchart.Prelude.{◌≡◌, refl, ◌↔◌, Bool, true, ◌&&◌, arith}
use bootchart.Prelude.Int.{ℤ, ◌+ℤ◌, ◌≤ℤ◌, ◌<ℤ◌, min_ℤ, max_ℤ, ltb_ℤ}
use bootchart.Draw.Clip.{Rect, clip_visible}

-- The pixel at (x, y) is one of the rectangle's.
pub record Inside (r : Rect) (x y : ℤ) : Type 0 where
  pub left : r.x ≤ℤ x
  pub right : x <ℤ r.x +ℤ r.w
  pub top : r.y ≤ℤ y
  pub bottom : y <ℤ r.y +ℤ r.h

&&-left : (a b : Bool) → (a && b) ≡ true → a ≡ true
&&-left a b h = ground arith

&&-right : (a b : Bool) → (a && b) ≡ true → b ≡ true
&&-right a b h = ground arith

-- On one axis: the later start is a common point, and every common point leaves room for it.
axis→common :
    (a b c d : ℤ)
    → ltb_ℤ (max_ℤ a c) (min_ℤ b d) ≡ true
    → (a ≤ℤ max_ℤ a c) × (max_ℤ a c <ℤ b) × (c ≤ℤ max_ℤ a c) × (max_ℤ a c <ℤ d)
unfolding max_ℤ min_ℤ
axis→common a b c d h = ground arith

common→axis :
    (a b c d x : ℤ) → a ≤ℤ x → x <ℤ b → c ≤ℤ x → x <ℤ d → ltb_ℤ (max_ℤ a c) (min_ℤ b d) ≡ true
unfolding max_ℤ min_ℤ
common→axis a b c d x h i j k = ground arith

-- A chart is taken for visible if and only if it has a pixel in common with the clip.
pub clip_visible_iff :
    (clip rect : Rect)
    → (clip_visible clip rect ≡ true) ↔ ((x : ℤ) × (y : ℤ) × Inside clip x y × Inside rect x y)
unfolding clip_visible
clip_visible_iff clip rect = (
  (λ h.
      let (a, b, c, d) =
        axis→common clip.x (clip.x +ℤ clip.w) rect.x (rect.x +ℤ rect.w) (&&-left _ _ h) in
      let (e, f, g, i) =
        axis→common clip.y (clip.y +ℤ clip.h) rect.y (rect.y +ℤ rect.h) (&&-right _ _ h) in
      (
        max_ℤ clip.x rect.x,
        max_ℤ clip.y rect.y,
        record { left = a; right = b; top = e; bottom = f },
        record { left = c; right = d; top = g; bottom = i },
      )),
  (λ (x, y, m, n).
      rw
        (
          common→axis clip.x (clip.x +ℤ clip.w) rect.x (rect.x +ℤ rect.w) x m.left m.right n.left
              n.right,
          common→axis clip.y (clip.y +ℤ clip.h) rect.y (rect.y +ℤ rect.h) y m.top m.bottom n.top
              n.bottom,
        )
        refl),
)
