-- ===== src/Draw/Axis.antt =====
-- draw_sec_labels, draw_box_ticks and draw_annotations of draw.py: what stands along the time axis.
pub mod Laws
pub mod Returns
use bootchart.Prelude.{
  ℕ, zero, suc, ◌+◌, ◌*◌, ◌/◌, ◌%◌, ◌==◌, Bool, List, [], ◌∷◌, Option, none, some, if◌then◌else◌,
}
use bootchart.Prelude.Results.{Result, ok, err, ◌>>=◌, value_error}
use bootchart.Prelude.Int.{ℤ, pos, negsuc, ◌+ℤ◌, ◌-ℤ◌, ◌*ℤ◌, leb_ℤ, pos_part}
use bootchart.Prelude.Ratio.{Ratio, add_ratio, divide}
use bootchart.Draw.Clip.{Rect}

pub record Tick : Type 0 where
  pub x : ℤ
  pub is_bold : Bool

-- The ticks of the seconds from `k` on, `n` of them.
unfoldable pub ticks_from : Rect → ℕ → ℕ → ℕ → List Tick
ticks_from rect sec_w k zero = []
ticks_from rect sec_w k (suc n) =
    record { x = rect.x +ℤ pos (k * sec_w); is_bold = k % 5 == 0 } ∷ ticks_from rect sec_w (k + 1) n

-- draw_box_ticks: a tick for every second; `range` raises for a step of 0.
unfoldable pub draw_box_ticks : Rect → ℕ → Result (List Tick)
unfolding ticks_from
draw_box_ticks rect sec_w =
    if sec_w == 0 then err value_error else ok (ticks_from rect sec_w 1 (pos_part rect.w / sec_w))

-- draw_annotations: the places of the times that are not None
unfoldable pub draw_annotations : Rect → ℤ → ℤ → List (Option ℤ) → Result (List Ratio)
unfolding divide add_ratio
draw_annotations rect start_time duration [] = ok []
draw_annotations rect start_time duration (none ∷ times) =
    draw_annotations rect start_time duration times
draw_annotations rect start_time duration (some time ∷ times) =
    divide ((time -ℤ start_time) *ℤ rect.w) duration >>= λ x.
    draw_annotations rect start_time duration times >>= λ rest.
    ok (add_ratio (record { num = rect.x; den = 1 }) x ∷ rest)

-- A label of the seconds: where it starts, in half pixels, and its width in pixels.
pub record SecLabel : Type 0 where
  pub second : ℕ
  pub start : ℤ
  pub width : ℤ

-- `label_w` is the width of the label of a second; `end'` is twice `prev_x`. A label that would cover the
-- one before is left out.
unfoldable pub labels_from : (ℕ → ℤ) → Rect → ℕ → ℕ → ℤ → ℕ → ℕ → List SecLabel
labels_from label_w rect sec_w nsecs end' k zero = []
labels_from label_w rect sec_w nsecs end' k (suc n) =
    let start : ℤ = pos 2 *ℤ (rect.x +ℤ pos (k * sec_w)) -ℤ label_w k in
    let width : ℤ = label_w k in
    let skipped : List SecLabel = labels_from label_w rect sec_w nsecs end' (k + 1) n in
    let later : List SecLabel =
      labels_from label_w rect sec_w nsecs (start +ℤ (width +ℤ width)) (k + 1) n in
    if k % nsecs == 0
    then (if leb_ℤ end' start
        then record { second = k; start = start; width = width } ∷ later
        else skipped)
    else skipped

-- How many seconds `range(0, w + 1, sec_w)` has.
unfoldable pub num_seconds : ℤ → ℕ → ℕ
num_seconds w sec_w = elim w [ pos n ↦ n / sec_w + 1 | negsuc n ↦ 0 ]

-- draw_sec_labels
unfoldable pub draw_sec_labels : (ℕ → ℤ) → Rect → ℕ → ℕ → Result (List SecLabel)
unfolding labels_from num_seconds
draw_sec_labels label_w rect sec_w nsecs =
    if sec_w == 0
    then err value_error
    else ok (labels_from label_w rect sec_w nsecs (pos 0) 0 (num_seconds rect.w sec_w))
