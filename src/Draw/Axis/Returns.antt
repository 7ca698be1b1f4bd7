-- ===== src/Draw/Axis/Returns.antt =====
-- The time axis is drawn without an exception where there is a duration and seconds are seen.
use bootchart.Prelude.{
  ℕ, ◌/◌, ◌<◌, ◌≡◌, refl, inl, inr, false, Bool-cases, arith, List, [], ◌∷◌, Option, none, some,
  ◌==◌,
}
use bootchart.Prelude.Results.{ok}
use bootchart.Prelude.Int.{ℤ, pos, ◌-ℤ◌, ◌*ℤ◌, pos_part, eqb_ℤ, eqb_ℤ_iff}
use bootchart.Prelude.Ratio.{Ratio, divide, ratio, add_ratio}
use bootchart.Draw.Clip.{Rect}
use bootchart.Draw.Axis.{
  draw_box_ticks, draw_sec_labels, draw_annotations, Tick, SecLabel, ticks_from, labels_from,
  num_seconds,
}

-- Where there is a duration, the annotations have their places.
pub draw_annotations-returns :
    (rect : Rect) (start_time duration : ℤ) (times : List (Option ℤ))
    → ¬ (duration ≡ pos 0)
    → (places : List Ratio) × (draw_annotations rect start_time duration times ≡ ok places)
unfolding draw_annotations divide
draw_annotations-returns rect start_time duration [] some_time = ([], refl)
draw_annotations-returns rect start_time duration (none ∷ times) some_time =
    draw_annotations-returns rect start_time duration times some_time
draw_annotations-returns rect start_time duration (some t ∷ times) some_time =
    let (rest, e) = draw_annotations-returns rect start_time duration times some_time in
    elim (Bool-cases (eqb_ℤ duration (pos 0))) [
      | inl zero_test ↦ absurd (some_time ((eqb_ℤ_iff duration (pos 0)).0 zero_test))
      | inr apart ↦ (
        add_ratio (record { num = rect.x; den = 1 }) (ratio ((t -ℤ start_time) *ℤ rect.w) duration)
            ∷ rest,
        rw (apart, e) refl,
      )
    ]

pub draw_box_ticks-returns :
    (rect : Rect) (sec_w : ℕ)
    → 0 < sec_w
    → (ticks : List Tick) × (draw_box_ticks rect sec_w ≡ ok ticks)
unfolding draw_box_ticks
draw_box_ticks-returns rect sec_w lt =
    let apart : (sec_w == 0) ≡ false = ground (arith, lt) in
    (ticks_from rect sec_w 1 (pos_part rect.w / sec_w), rw apart refl)

pub draw_sec_labels-returns :
    (label_w : ℕ → ℤ) (rect : Rect) (sec_w nsecs : ℕ)
    → 0 < sec_w
    → (labels : List SecLabel) × (draw_sec_labels label_w rect sec_w nsecs ≡ ok labels)
unfolding draw_sec_labels
draw_sec_labels-returns label_w rect sec_w nsecs lt =
    let apart : (sec_w == 0) ≡ false = ground (arith, lt) in
    (labels_from label_w rect sec_w nsecs (pos 0) 0 (num_seconds rect.w sec_w), rw apart refl)
