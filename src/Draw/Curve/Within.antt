-- ===== src/Draw/Curve/Within.antt =====
-- The whole of draw_chart: which samples it draws without an error, and within its rectangle.
use bootchart.Prelude.{
  zero, suc, ◌≡◌, refl, inl, inr, Bool, false, arith, Option, none, some, List, [], ◌∷◌, map,
  Bool-cases,
}
use bootchart.Prelude.Results.{ok}
use bootchart.Prelude.Int.{
  ℤ, pos, negsuc, ◌+ℤ◌, ◌-ℤ◌, ◌≤ℤ◌, max_ℤ, eqb_ℤ, eqb_ℤ_iff, int_laws, parts_of_eq, max_ℤ-ge_left,
  max_ℤ-ge_right, ≤ℤ_trans,
}
use bootchart.Draw.Clip.{Rect}
use bootchart.Draw.Curve.{Sample, Curve, Range, max_from, range_of, path_of, plot, draw_chart}
use bootchart.Draw.Curve.Laws.{AllIn, AllShown, IsProper, path_of-AllIn}

abbrev pub AllAtMost : ℤ → List ℤ → Type 0
AllAtMost m [] = Unit
AllAtMost m (x ∷ xs) = (x ≤ℤ m) × AllAtMost m xs

pub max_from-AllAtMost : (m : ℤ) (xs : List ℤ) → (m ≤ℤ max_from m xs) × AllAtMost (max_from m xs) xs
unfolding max_from
max_from-AllAtMost m [] = (omega arith, tt)
max_from-AllAtMost m (x ∷ xs) =
    let rest = max_from-AllAtMost (max_ℤ m x) xs in
    (
      ≤ℤ_trans m (max_ℤ m x) (max_from (max_ℤ m x) xs) (max_ℤ-ge_left m x) rest.0,
      (≤ℤ_trans x (max_ℤ m x) (max_from (max_ℤ m x) xs) (max_ℤ-ge_right m x) rest.0, rest.1),
    )

-- A sample not before the start of the chart, with a value in the given range, or not below nought.
abbrev pub IsInRange : Option (ℤ × ℤ) → ℤ → Type 0
IsInRange none v = pos 0 ≤ℤ v
IsInRange (some (low, high)) v = (low ≤ℤ v) × (v ≤ℤ high)

abbrev pub AllValid : ℤ → Option (ℤ × ℤ) → List Sample → Type 0
AllValid x_shift data_range [] = Unit
AllValid x_shift data_range (s ∷ ss) =
    (x_shift ≤ℤ s.time) × IsInRange data_range s.value × AllValid x_shift data_range ss

-- A given range is not empty.
abbrev pub HasLength : Option (ℤ × ℤ) → Type 0
HasLength none = Unit
HasLength (some (low, high)) = low +ℤ pos 1 ≤ℤ high

shown_value :
    (unit max_y v : ℤ) (data_range : Option (ℤ × ℤ))
    → pos 1 ≤ℤ unit
    → v ≤ℤ max_y
    → IsInRange data_range v
    → (pos 0 ≤ℤ v -ℤ (range_of unit data_range max_y).base)
      × (v -ℤ (range_of unit data_range max_y).base ≤ℤ (range_of unit data_range max_y).span)
unfolding range_of
shown_value unit max_y v none positive le h = elim (Bool-cases (eqb_ℤ max_y (pos 0))) [
  | inl e ↦
      let none_above = parts_of_eq ((eqb_ℤ_iff max_y (pos 0)).0 e) in
      rw e (omega (int_laws, h), omega (int_laws, le, none_above, positive))
  | inr e ↦ rw e (omega (int_laws, h), omega (int_laws, le))
]
shown_value unit max_y v (some (low, high)) positive le h =
    (omega (int_laws, h.0), omega (int_laws, h.1))

one_or_more : (a : ℤ) → pos 0 ≤ℤ a → ¬ (a ≡ pos 0) → pos 1 ≤ℤ a
one_or_more (pos zero) le apart = absurd (apart refl)
one_or_more (pos (suc n)) le apart = omega arith
one_or_more (negsuc n) le apart = absurd (omega (arith, le))

apart_test : (a : ℤ) → pos 1 ≤ℤ a → eqb_ℤ a (pos 0) ≡ false
apart_test a le = ground (arith, le)

span_positive :
    (unit max_y v : ℤ) (data_range : Option (ℤ × ℤ))
    → pos 1 ≤ℤ unit
    → v ≤ℤ max_y
    → IsInRange data_range v
    → HasLength data_range
    → pos 1 ≤ℤ (range_of unit data_range max_y).span
unfolding range_of
span_positive unit max_y v none positive le h long = elim (Bool-cases (eqb_ℤ max_y (pos 0))) [
  | inl e ↦ rw e positive
  | inr e ↦
      let apart : ¬ (max_y ≡ pos 0) = grind (arith, eqb_ℤ_iff max_y (pos 0)) in
      rw e (one_or_more max_y (≤ℤ_trans (pos 0) v max_y h le) apart)
]
span_positive unit max_y v (some (low, high)) positive le h long = omega (int_laws, long)

module _ (unit x_shift max_x max_y : ℤ) (data_range : Option (ℤ × ℤ)) (positive : pos 1 ≤ℤ unit)
    (shift : pos 0 ≤ℤ x_shift) where
  AllValid-AllShown :
      (ss : List Sample)
      → AllAtMost max_x (map (λ (t : Sample). t.time) ss)
      → AllAtMost max_y (map (λ (t : Sample). t.value) ss)
      → AllValid x_shift data_range ss
      → AllShown x_shift max_x (range_of unit data_range max_y) ss
  AllValid-AllShown [] before below h = tt
  AllValid-AllShown (s ∷ ss) before below h =
      let (low, high) = shown_value unit max_y s.value data_range positive below.0 h.1 in
      let before_end = before.0 in
      let after_start = h.0 in
      (
        (omega (int_laws, after_start), omega (int_laws, before_end, shift), low, high),
        AllValid-AllShown ss before.1 below.1 h.2,
      )

plot-ok :
    (fill : Bool) (bounds : Rect) (x_shift max_x : ℤ) (range : Range) (s : Sample)
    (ss : List Sample)
    → pos 1 ≤ℤ max_x
    → pos 1 ≤ℤ range.span
    → plot fill bounds x_shift max_x range s ss
      ≡ ok (record {
        x_den = max_x;
        y_den = range.span;
        path = path_of fill bounds x_shift max_x range s ss;
      })
unfolding plot
plot-ok fill bounds x_shift max_x range s ss across up =
    rw (apart_test max_x across, apart_test range.span up) refl

-- Samples that begin after the time 0, are none before the start of the chart, and have values in the
-- given range or, without one, not below nought are drawn, and every corner of the curve stands in the
-- rectangle, the filling included. The denominators of the coordinates are positive.
pub draw_chart-AllIn :
    (unit : ℤ) (fill : Bool) (bounds : Rect) (s : Sample) (ss : List Sample) (x_shift : ℤ)
    (data_range : Option (ℤ × ℤ))
    → IsProper bounds
    → pos 1 ≤ℤ unit
    → pos 0 ≤ℤ x_shift
    → pos 1 ≤ℤ s.time
    → HasLength data_range
    → AllValid x_shift data_range (s ∷ ss)
    → (curve : Curve) × (draw_chart unit fill bounds (s ∷ ss) x_shift data_range ≡ ok curve)
      × AllIn bounds curve.x_den curve.y_den curve.path
      × (pos 1 ≤ℤ curve.x_den)
      × (pos 1 ≤ℤ curve.y_den)
unfolding draw_chart
draw_chart-AllIn unit fill bounds s ss x_shift data_range proper positive shift late long valid =
    let max_x : ℤ = max_from s.time (map (λ (t : Sample). t.time) ss) in
    let max_y : ℤ = max_from s.value (map (λ (t : Sample). t.value) ss) in
    let times = max_from-AllAtMost s.time (map (λ (t : Sample). t.time) ss) in
    let values = max_from-AllAtMost s.value (map (λ (t : Sample). t.value) ss) in
    let range : Range = range_of unit data_range max_y in
    let across : pos 1 ≤ℤ max_x = ≤ℤ_trans (pos 1) s.time max_x late times.0 in
    let up = span_positive unit max_y s.value data_range positive values.0 valid.1 long in
    let shown =
      AllValid-AllShown unit x_shift max_x max_y data_range positive shift (s ∷ ss) times values
        valid in
    (
      record {
        x_den = max_x;
        y_den = range.span;
        path = path_of fill bounds x_shift max_x range s ss;
      },
      plot-ok fill bounds x_shift max_x range s ss across up,
      path_of-AllIn bounds x_shift max_x range proper fill s ss shown,
      across,
      up,
    )
