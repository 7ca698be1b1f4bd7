-- ===== src/Batch.antt =====
-- pybootchartgui/batch.py: a chart in an image file of the wanted format.
pub mod Laws
use bootchart.Prelude.{
  ℕ, ◌==◌, ◌*◌, ◌+◌, Bool, Option, none, some, List, [], ◌∷◌, Text, codes, text_eq, if◌then◌else◌,
}
use bootchart.Prelude.Results.{Result, ok, err, index_error, or_raise, ◌>>=◌}
use bootchart.Prelude.Int.{ℤ, pos, max_ℤ}
use bootchart.Prelude.Ratio.{Ratio}
use bootchart.Draw.Clip.{Rect}
use bootchart.Draw.Layout.{RenderOptions, Chart, Page, Surface, extents}
use bootchart.Draw.Layout as Layout

-- The keys of `handlers`.
pub data Format : Type 0 where
  png : Format
  pdf : Format
  svg : Format

unfoldable pub format_of : Text → Option Format
format_of fmt =
    if text_eq fmt (codes "png")
    then some png
    else if text_eq fmt (codes "pdf")
    then some pdf
    else if text_eq fmt (codes "svg")
    then some svg
    else none

-- filename.rsplit('.', 1)[1]: the text behind the last dot, if there is a dot.
unfoldable pub behind_last_dot : Text → Option Text
behind_last_dot [] = none
behind_last_dot (c ∷ s) =
    let later : Option Text = behind_last_dot s in
    elim later [ none ↦ if c == b'.' then some s else none | some e ↦ some e ]

-- `app_options.format`, or the extension of the file.
unfoldable pub chosen_format : Option Text → Text → Result Text
unfolding behind_last_dot
chosen_format (some fmt) filename = ok fmt
chosen_format none filename = or_raise index_error (behind_last_dot filename)

-- draw.MIN_IMG_W
abbrev pub min_img_w : ℕ
min_img_w = 800

abbrev pub unscaled : Ratio
unscaled = record { num = pos 1; den = 1 }

-- What `render` does: an image of a size, with a page drawn on it, or the code 10.
pub data Outcome : Type 0 where
  written : Format → ℤ → ℕ → Page → Outcome
  failed : ℕ → Outcome

module _ {V : Type 0} where
  -- The part behind the choice of the format; the clip of a new image covers it.
  unfoldable pub render_image : RenderOptions → Surface → Chart V → Format → Result Outcome
  unfolding extents Layout.render
  render_image options surface chart format =
      let size : ℤ × ℕ = extents options unscaled chart in
      let w : ℤ = max_ℤ size.0 (pos min_img_w) in
      let clip : Rect = record { x = pos 0; y = pos 0; w = w; h = pos size.1 } in
      (do
        page ← Layout.render options surface unscaled clip chart
        ok (written format w size.1 page))

  -- render
  unfoldable pub render : Option Text → Text → RenderOptions → Surface → Chart V → Result Outcome
  unfolding chosen_format format_of render_image
  render format filename options surface chart = do
    fmt ← chosen_format format filename
    (elim (format_of fmt) [
      | none ↦ ok (failed 10)
      | some known ↦ render_image options surface chart known
    ])
