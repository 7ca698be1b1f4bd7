-- ===== src/Draw/Layout/Laws.antt =====
-- The page of a boot is drawn, and the rows of the processes stand within it.
use mathlib.Core.Path.{subst}
use bootchart.Prelude.{
  ℕ, ◌+◌, ◌*◌, ◌-◌, ◌≤◌, ◌<◌, ◌≡◌, refl, sym, ◌∙◌, inl, inr, Bool, true, false, ap, ◌&&◌, List, [],
  ◌++◌, Bool-cases, if◌then◌else◌, arith,
}
use bootchart.Prelude.Results.{Result, ok, ◌>>=◌}
use bootchart.Prelude.Int.{ℤ, pos, ◌+ℤ◌, ◌-ℤ◌, ◌≤ℤ◌, pos_part}
use bootchart.Prelude.Ratio.{Ratio}
use bootchart.Tree.Forest.{num_nodes}
use bootchart.Draw.Sizes.{proc_h, bar_h, cuml_height}
use bootchart.Draw.Clip.{Rect}
use bootchart.Draw.Rows.{draw_roots}
use bootchart.Draw.Rows.Within.{Within, Within-wider, draw_roots-Within}
use bootchart.Draw.Charts.{Drawing, TimeScale}
use bootchart.Draw.Charts.Laws.{
  Proper, CpuReady, DiskReady, MemReady, cpu_chart-Returns, disk_chart-Returns, mem_chart-returns,
}
use bootchart.Draw.Boxes.Chart.{rows_of}
use bootchart.Draw.BarChart.Laws.{draw_process_bar_chart-rows_of}
use bootchart.Draw.Layout.{
  RenderOptions, Chart, Page, Surface, extents, draw_header, render_charts, optional_charts,
  place_graphs, render_processes, render, scale_of, view_of, sec_w_of,
}

-- Where the cumulative graphs begin, or the page ends without them.
abbrev pub proc_height : {V : Type 0} → RenderOptions → Chart V → ℕ → ℕ
proc_height options chart h =
    if chart.has_taskstats && options.cumulative then h - cuml_height else h

pub extents-height :
    {V : Type 0} (options : RenderOptions) (xscale : Ratio) (chart : Chart V)
    → options.charts ≡ true
    → 440 + proc_h * num_nodes chart.process_tree
      ≤ proc_height options chart (extents options xscale chart).1
unfolding extents
extents-height options xscale chart charts =
    elim (Bool-cases (chart.has_taskstats && options.cumulative)) [
      | inl e ↦ rw (extents, e, charts) (omega arith)
      | inr e ↦ rw (extents, e, charts) (omega arith)
    ]

optional_charts_on :
    {V : Type 0} (options : RenderOptions) (scale : TimeScale) (clip : Rect) (chart : Chart V)
    (y : ℕ) (w : ℤ)
    → options.charts ≡ true
    → optional_charts options scale clip chart y w ≡ render_charts scale clip chart y w
unfolding optional_charts
optional_charts_on options scale clip chart y w on = rw on refl

if-le : (b : Bool) (m n k : ℕ) → m ≤ k → n ≤ k → (if b then m else n) ≤ k
if-le true m n k h h' = h
if-le false m n k h h' = h'

-- A boot that can be drawn at a scale: it has a duration, a second is a pixel at least, and the logs have the
-- samples that the charts need.
pub record Drawable {V : Type 0} (xscale : Ratio) (chart : Chart V) : Type 0 where
  pub has_duration : ¬ (chart.duration ≡ pos 0)
  pub has_seconds : 0 < sec_w_of xscale
  pub has_unit : pos 1 ≤ℤ chart.unit
  pub has_cpu : CpuReady chart.cpu_stats
  pub has_disk : DiskReady chart.disk_stats
  pub has_mem : MemReady chart.mem_stats

module _ {V : Type 0} (xscale : Ratio) (clip : Rect) (chart : Chart V)
    (drawable : Drawable xscale chart) where
  render_charts-returns :
      (curr_y : ℕ) (w : ℤ)
      → (d : List Drawing) × (y : ℕ) × (render_charts (scale_of xscale chart) clip chart curr_y w
          ≡ ok (d, y))
        × (y ≤ curr_y + 280)
  unfolding render_charts
  render_charts-returns curr_y w =
      let scale : TimeScale = scale_of xscale chart in
      let proper : Proper scale = record {
        has_duration = drawable.has_duration;
        has_seconds = drawable.has_seconds;
        has_unit = drawable.has_unit;
      } in
      let disk_y = curr_y + 30 + bar_h in
      let mem_y = disk_y + 30 + bar_h in
      let (cpu, e1) =
        cpu_chart-Returns scale proper clip w curr_y chart.cpu_stats drawable.has_cpu in
      let (disk, e2) =
        disk_chart-Returns scale proper clip w disk_y chart.disk_stats drawable.has_disk in
      let (mem, y, e3, le) =
        mem_chart-returns scale proper clip w mem_y chart.mem_stats drawable.has_mem in
      (cpu ++ (disk ++ mem), y, rw (e1, e2, e3) refl, omega (arith, le))

  -- The part behind the charts.
  render_processes-rows :
      (options : RenderOptions) (surface : Surface) (drawings : List Drawing) (y : ℕ)
      → (page : Page) × (render_processes options surface xscale clip chart drawings y ≡ ok page)
        × (page.size ≡ extents options xscale chart)
        × (rows_of page.bars.items
            ≡ draw_roots proc_h (pos_part (clip.y +ℤ clip.h)) (y + 60) chart.process_tree)
  unfolding render_processes
  render_processes-rows options surface drawings y =
      let size = extents options xscale chart in
      let w = size.0 -ℤ pos 20 in
      let (bars, barred, rows) =
        draw_process_bar_chart-rows_of surface.label_w (view_of surface clip chart)
          options.kernel_only chart.times y w (pos (proc_height options chart size.1))
          (sec_w_of xscale) chart.process_tree drawable.has_seconds drawable.has_duration in
      let graphs =
        if chart.has_taskstats && options.cumulative
        then place_graphs clip w (proc_height options chart size.1)
        else [] in
      (
        record { size = size; drawings = drawings; bars = bars; graphs = graphs },
        rw barred refl,
        refl,
        rows,
      )

  -- The page as it is computed, with the place of its rows.
  pub render-rows :
      (options : RenderOptions) (surface : Surface)
      → options.charts ≡ true
      → draw_header surface.first_h surface.text_h ≤ 100
      → (page : Page) × (y : ℕ) × (render options surface xscale clip chart ≡ ok page)
        × (page.size ≡ extents options xscale chart)
        × (rows_of page.bars.items
            ≡ draw_roots proc_h (pos_part (clip.y +ℤ clip.h)) y chart.process_tree)
        × (y + proc_h * num_nodes chart.process_tree ≤ proc_height options chart page.size.1)
  unfolding render
  render-rows options surface charts header =
      let size = extents options xscale chart in
      let w = size.0 -ℤ pos 20 in
      let top = if options.kernel_only then 10 else draw_header surface.first_h surface.text_h in
      let (drawings, y, drawn, le) = render_charts-returns top w in
      let (page, run, sized, rows) = render_processes-rows options surface drawings y in
      let at_most : top ≤ 100 =
        if-le options.kernel_only 10 (draw_header surface.first_h surface.text_h) 100 (omega arith)
          header in
      let height = ap (λ (x : ℤ × ℕ). proc_height options chart x.1) sized in
      (
        page,
        y + 60,
        ap
              (λ (r : Result (List Drawing × ℕ)). r >>= λ (d : List Drawing × ℕ).
                render_processes options surface xscale clip chart d.0 d.1)
              (optional_charts_on options (scale_of xscale chart) clip chart top w charts ∙ drawn)
            ∙ run,
        sized,
        rows,
        omega (arith, le, at_most, height, extents-height options xscale chart charts),
      )

-- For a page with charts whose header ends at 100 at the latest, of a boot with a duration, at a scale at
-- which a second is a pixel at least, with CPU and disk samples, the first after the time 0, and no memory
-- samples or some, the first after the time 0 and with memory in use, `render` gives no exception,
-- and the rows of all the boxes that it draws stand within the page, above the cumulative graphs,
-- whatever is clipped.
pub render-Within :
    {V : Type 0} (options : RenderOptions) (surface : Surface) (xscale : Ratio) (clip : Rect)
    (chart : Chart V)
    → options.charts ≡ true
    → draw_header surface.first_h surface.text_h ≤ 100
    → Drawable xscale chart
    → (page : Page) × (render options surface xscale clip chart ≡ ok page)
      × Within 0 (proc_height options chart page.size.1) (rows_of page.bars.items)
render-Within options surface xscale clip chart charts header drawable =
    let (page, y, run, size, rows, le) =
      render-rows xscale clip chart drawable options surface charts header in
    let bottom = y + proc_h * num_nodes chart.process_tree in
    (
      page,
      run,
      subst (Within 0 (proc_height options chart page.size.1)) (sym rows) (
          Within-wider y 0 bottom (proc_height options chart page.size.1)
            (draw_roots proc_h (pos_part (clip.y +ℤ clip.h)) y chart.process_tree) (omega arith) le
            (draw_roots-Within (pos_part (clip.y +ℤ clip.h)) y chart.process_tree)),
    )
