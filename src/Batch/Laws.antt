-- ===== src/Batch/Laws.antt =====
-- An image shows every process.
use mathlib.Core.Path.{subst}
use bootchart.Prelude.{
  ℕ, suc, ◌+◌, ◌*◌, ◌≤◌, ◌≡◌, refl, sym, ap, ◌∙◌, inl, inr, true, false, Bool-cases, arith, Option,
  none, some, List, [], ◌∷◌, Text, length, ltb, ◌&&◌,
}
use bootchart.Prelude.Results.{ok}
use bootchart.Prelude.Int.{ℤ, pos, ◌+ℤ◌, ◌≤ℤ◌, max_ℤ, max_ℤ-ge_left, max_ℤ-ge_right, pos_part}
use bootchart.Samples.{Process}
use bootchart.Tree.Forest.{Forest, processes, num_nodes, length-processes}
use bootchart.Draw.Clip.{Rect}
use bootchart.Draw.Rows.{Row, draw_roots}
use bootchart.Draw.Rows.Laws.{visible, rows_from, draw_roots-visible}
use bootchart.Draw.Sizes.{proc_h}
use bootchart.Draw.Layout.{Surface, RenderOptions, Chart, Page, extents, draw_header}
use bootchart.Draw.Rows.Within.{Within, Within-wider, draw_roots-Within}
use bootchart.Draw.Layout.Laws.{Drawable, render-rows, proc_height}
use bootchart.Draw.Boxes.Chart.{rows_of}
use bootchart.Batch.{
  Format, Outcome, written, failed, chosen_format, format_of, render_image, min_img_w, unscaled,
}
use bootchart.Batch as Batch

from_top : (n : ℕ) → pos_part (pos 0 +ℤ pos n) ≡ n
unfolding ◌+ℤ◌
from_top n = ground arith

proc_height-le :
    {V : Type 0} (options : RenderOptions) (chart : Chart V) (h : ℕ)
    → proc_height options chart h ≤ h
proc_height-le options chart h = elim (Bool-cases (chart.has_taskstats && options.cumulative)) [
  | inl e ↦ rw e (omega arith)
  | inr e ↦ rw e (omega arith)
]

visible-Within :
    (top bottom : ℕ) (rows : List Row) → Within top bottom rows → visible bottom rows ≡ rows
unfolding visible
visible-Within top bottom [] h = refl
visible-Within top bottom (r ∷ rs) (a, b, h) =
    let above : ltb bottom r.y ≡ false = ground (arith, b) in
    rw above (ap (◌∷◌ r) (visible-Within top bottom rs h))

module _ {V : Type 0} where
  rows_from-Within :
      (y : ℕ) (ps : List (Process V)) → Within y (y + proc_h * length ps) (rows_from proc_h y ps)
  unfolding rows_from
  rows_from-Within y [] = tt
  rows_from-Within y (p ∷ ps) = (
    omega arith,
    omega arith,
    Within-wider (y + proc_h) y (y + proc_h + proc_h * length ps) (y + proc_h * suc (length ps))
        (rows_from proc_h (y + proc_h) ps) (omega arith) (omega arith)
        (rows_from-Within (y + proc_h) ps),
  )

  -- Where the rows end above the lower edge of the clip, none is left out.
  draw_roots_all :
      (bottom y : ℕ) (f : Forest V)
      → y + proc_h * num_nodes f ≤ bottom
      → draw_roots proc_h bottom y f ≡ rows_from proc_h y (processes f)
  draw_roots_all bottom y f le =
      let size = length-processes f in
      let drawn =
        Within-wider y y (y + proc_h * num_nodes f) bottom (draw_roots proc_h bottom y f)
          (omega arith) le (draw_roots-Within bottom y f) in
      let wanted =
        Within-wider y y (y + proc_h * length (processes f)) bottom
          (rows_from proc_h y (processes f)) (omega arith) (omega (arith, le, size))
          (rows_from-Within y (processes f)) in
      sym (visible-Within y bottom (draw_roots proc_h bottom y f) drawn)
      ∙ draw_roots-visible proc_h bottom y f
      ∙ visible-Within y bottom (rows_from proc_h y (processes f)) wanted

  render_known :
      (format : Option Text) (filename fmt : Text) (known : Format) (options : RenderOptions)
      (surface : Surface) (chart : Chart V)
      → chosen_format format filename ≡ ok fmt
      → format_of fmt ≡ some known
      → Batch.render format filename options surface chart
        ≡ render_image options surface chart known
  unfolding Batch.render
  render_known format filename fmt known options surface chart chosen is_known = rw chosen (
      ap
        (λ (o : Option Format). elim o [
          | none ↦ ok (failed 10)
          | some f ↦ render_image options surface chart f
        ])
        is_known)

  -- For a known format, as it is given or as the file's extension says, the chart of a boot with charts,
  -- whose header ends at 100 at the latest, with a duration, CPU and disk samples, the first after the
  -- time 0, and no memory samples or some, the first after the time 0 and with memory in use, is
  -- written into an image as wide as the page and at least 800 pixels wide, and every process of the
  -- tree has a box, one row below the other, all within the image.
  pub render-rows_from :
      (format : Option Text) (filename fmt : Text) (known : Format) (options : RenderOptions)
      (surface : Surface) (chart : Chart V)
      → chosen_format format filename ≡ ok fmt
      → format_of fmt ≡ some known
      → options.charts ≡ true
      → draw_header surface.first_h surface.text_h ≤ 100
      → Drawable unscaled chart
      → (w : ℤ) × (h y : ℕ) × (page : Page) × (Batch.render format filename options surface chart
          ≡ ok (written known w h page))
        × (page.size.0 ≤ℤ w)
        × (pos min_img_w ≤ℤ w)
        × (rows_of page.bars.items ≡ rows_from proc_h y (processes chart.process_tree))
        × (y + proc_h * num_nodes chart.process_tree ≤ h)
  unfolding render_image
  render-rows_from format filename fmt known options surface chart chosen is_known charts header
        drawable =
      let size = extents options unscaled chart in
      let wide = max_ℤ size.0 (pos min_img_w) in
      let clip : Rect = record { x = pos 0; y = pos 0; w = wide; h = pos size.1 } in
      let (page, y, run, fits, rows, le) =
        render-rows unscaled clip chart drawable options surface charts header in
      let all : y + proc_h * num_nodes chart.process_tree ≤ size.1 =
        omega (arith, le, proc_height-le options chart page.size.1, ap (λ (x : ℤ × ℕ). x.1) fits) in
      let complete = draw_roots_all size.1 y chart.process_tree all in
      let same_clip =
        ap (λ bottom. draw_roots proc_h bottom y chart.process_tree) (from_top size.1) in
      (
        wide,
        size.1,
        y,
        page,
        render_known format filename fmt known options surface chart chosen is_known ∙ rw run refl,
        subst (λ (x : ℤ × ℕ). x.0 ≤ℤ wide) (sym fits) (max_ℤ-ge_left size.0 (pos min_img_w)),
        max_ℤ-ge_right size.0 (pos min_img_w),
        rows ∙ same_clip ∙ complete,
        all,
      )
