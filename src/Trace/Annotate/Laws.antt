-- ===== src/Trace/Annotate/Laws.antt =====
-- The annotations that are drawn.
use bootchart.Prelude.{
  ◌≡◌, refl, ◌∙◌, inl, inr, Bool-cases, Option, none, some, List, [], ◌∷◌, ◌++◌, Text,
  if◌then◌else◌, map,
}
use bootchart.Prelude.Int.{ℤ}
use bootchart.Prelude.Dict.{Dict}
use bootchart.Samples.{Process}
use bootchart.Draw.Clip.{Rect}
use bootchart.Draw.Axis.{draw_annotations}
use bootchart.Trace.Crop.{is_named, crop_names}
use bootchart.Trace.Annotate.{annotate_names, annotate_all, times}

draw_annotations-cons :
    (rect : Rect) (start_time duration : ℤ) (time : Option ℤ) (xs ys : List (Option ℤ))
    → draw_annotations rect start_time duration xs ≡ draw_annotations rect start_time duration ys
    → draw_annotations rect start_time duration (time ∷ xs)
      ≡ draw_annotations rect start_time duration (time ∷ ys)
unfolding draw_annotations
draw_annotations-cons rect start_time duration none xs ys same = same
draw_annotations-cons rect start_time duration (some t) xs ys same = rw same refl

module _ {V : Type 0} where
  -- The start of the first process with one of the names.
  unfoldable pub first_start : List Text → Dict ℤ (Process V) → Option ℤ
  first_start names [] = none
  first_start names ((k, p) ∷ map) =
      let later : Option ℤ = first_start names map in
      if is_named p.cmd names then some p.start_time else later

  -- One time for every annotation.
  unfoldable pub first_starts : List Text → Dict ℤ (Process V) → List (Option ℤ)
  unfolding first_start
  first_starts [] map = []
  first_starts (procnames ∷ rest) map =
      first_start (crop_names procnames) map ∷ first_starts rest map

  module _ (rect : Rect) (start_time duration : ℤ) where
    draw_annotations-names :
        (names : List Text) (map : Dict ℤ (Process V)) (rest : List (Option ℤ))
        → draw_annotations rect start_time duration (annotate_names names map ++ rest)
          ≡ draw_annotations rect start_time duration (first_start names map ∷ rest)
    unfolding draw_annotations annotate_names first_start
    draw_annotations-names names [] rest = refl
    draw_annotations-names names ((k, p) ∷ map) rest =
        let later = draw_annotations-names names map rest in
        elim (Bool-cases (is_named p.cmd names)) [ inl e ↦ rw e refl | inr e ↦ rw e later ]

    draw_annotations-all :
        (annotate : List Text) (map : Dict ℤ (Process V))
        → draw_annotations rect start_time duration (annotate_all annotate map)
          ≡ draw_annotations rect start_time duration (first_starts annotate map)
    unfolding annotate_all first_starts
    draw_annotations-all [] map = refl
    draw_annotations-all (procnames ∷ rest) map =
        draw_annotations-names (crop_names procnames) map (annotate_all rest map)
        ∙ draw_annotations-cons rect start_time duration (first_start (crop_names procnames) map)
            (annotate_all rest map) (first_starts rest map) (draw_annotations-all rest map)

    -- The lines that are drawn for the times of a trace are those of its idle time and, for every
    -- annotation, of the start of the first process in the map with one of its names: the Nones that
    -- the loop adds before it are not drawn.
    pub draw_annotations-times :
        (idle : Option ℤ) (annotate : List Text) (map : Dict ℤ (Process V))
        → draw_annotations rect start_time duration (times idle (some annotate) map)
          ≡ draw_annotations rect start_time duration (idle ∷ first_starts annotate map)
    unfolding times
    draw_annotations-times idle annotate map =
        draw_annotations-cons rect start_time duration idle (annotate_all annotate map)
          (first_starts annotate map) (draw_annotations-all annotate map)
