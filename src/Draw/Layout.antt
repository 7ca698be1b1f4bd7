-- ===== src/Draw/Layout.antt =====
-- extents, render_charts and render of draw.py: where the parts of the chart stand. Vertical coordinates
-- are whole pixels. What cairo knows of texts is an argument, and the exceptions of the charts are errors.
pub mod Laws
use bootchart.Prelude.{
  ℕ, suc, ◌+◌, ◌*◌, ◌-◌, ◌/◌, Bool, ◌&&◌, List, [], ◌∷◌, ◌++◌, Option, Text, if◌then◌else◌,
}
use bootchart.Prelude.Results.{Result, ok, ◌>>=◌}
use bootchart.Prelude.Int.{ℤ, pos, negsuc, ◌+ℤ◌, ◌-ℤ◌, ◌*ℤ◌, pos_part}
use bootchart.Prelude.Ratio.{Ratio}
use bootchart.Tree.Forest.{Forest, num_nodes}
use bootchart.Draw.Sizes.{off_x, off_y, bar_h, header_h, proc_h, cuml_height}
use bootchart.Draw.Clip.{Rect, clip_visible}
use bootchart.Draw.Charts.{
  CpuPoint, DiskPoint, MemPoint, Drawing, TimeScale, cpu_chart, disk_chart, mem_chart,
}
use bootchart.Draw.Boxes.{View}
use bootchart.Draw.BarChart.{BarChart, draw_process_bar_chart}
use bootchart.Draw.Cumulative.{StatType, stat_cpu, stat_io}

-- class RenderOptions
pub record RenderOptions : Type 0 where
  pub cumulative : Bool
  pub charts : Bool
  pub kernel_only : Bool

-- What is read of the process tree and of the logs.
pub record Chart (V : Type 0) : Type 0 where
  pub start_time : ℤ
  pub duration : ℤ
  pub has_taskstats : Bool
  pub process_tree : Forest V
  pub times : List (Option ℤ)
  pub unit : ℤ
  pub cpu_stats : List CpuPoint
  pub disk_stats : List DiskPoint
  pub mem_stats : List MemPoint

-- What cairo and the options of the command say: the heights of a line in two fonts, the widths of a text
-- and of the label of a second, and what the labels of the processes show.
pub record Surface : Type 0 where
  pub first_h : ℕ
  pub text_h : ℕ
  pub text_width : Text → ℕ
  pub label_w : ℕ → ℤ
  pub show_all : Bool
  pub show_pid : Bool

-- int(x), which drops the fraction
unfoldable pub truncate : Ratio → ℤ
truncate r = elim r.num [ pos a ↦ pos (a / r.den) | negsuc a ↦ pos 0 -ℤ pos (suc a / r.den) ]

module _ {V : Type 0} where
  unfoldable pub extents : RenderOptions → Ratio → Chart V → ℤ × ℕ
  unfolding truncate
  extents options xscale chart =
      let w : ℤ =
        truncate (record { num = chart.duration *ℤ pos 50 *ℤ xscale.num; den = 100 * xscale.den })
        +ℤ pos (2 * off_x) in
      let rows : ℕ = proc_h * num_nodes chart.process_tree + 2 * off_y in
      let with_charts : ℕ = if options.charts then rows + header_h else rows in
      (
        w,
        if chart.has_taskstats && options.cumulative
            then with_charts + (cuml_height + 4 * off_y)
            else with_charts,
      )

-- draw_header, less its texts: five lines of the text font below one of the first font
abbrev pub draw_header : ℕ → ℕ → ℕ
draw_header first_h text_h = first_h + 10 + 5 * text_h

-- What a page has: its size, the charts, the process chart, and the cumulative graphs with their
-- places.
pub record Page : Type 0 where
  pub size : ℤ × ℕ
  pub drawings : List Drawing
  pub bars : BarChart
  pub graphs : List (StatType × Rect)

-- The two cumulative graphs below the processes.
unfoldable pub place_graphs : Rect → ℤ → ℕ → List (StatType × Rect)
place_graphs clip w proc_height =
    let height : ℤ = pos (cuml_height / 2 - off_y * 2) in
    let cpu : Rect = record { x = pos off_x; y = pos (proc_height + off_y); w = w; h = height } in
    let io : Rect = record {
      x = pos off_x;
      y = pos (proc_height + off_y * 100);
      w = w;
      h = height;
    } in
    (if clip_visible clip cpu then (stat_cpu, cpu) ∷ [] else [])
    ++ (if clip_visible clip io then (stat_io, io) ∷ [] else [])

-- int (xscale * sec_w_base); a scale is positive.
unfoldable pub sec_w_of : Ratio → ℕ
unfolding truncate
sec_w_of xscale = pos_part (truncate (record { num = xscale.num *ℤ pos 50; den = xscale.den }))

module _ {V : Type 0} where
  abbrev pub scale_of : Ratio → Chart V → TimeScale
  scale_of xscale chart = record {
    start_time = chart.start_time;
    duration = chart.duration;
    times = chart.times;
    sec_w = sec_w_of xscale;
    unit = chart.unit;
  }

  unfoldable pub render_charts : TimeScale → Rect → Chart V → ℕ → ℤ → Result (List Drawing × ℕ)
  unfolding cpu_chart disk_chart mem_chart
  render_charts scale clip chart curr_y w = do
    let disk_y = curr_y + 30 + bar_h
    let mem_y = disk_y + 30 + bar_h
    cpu ← cpu_chart scale clip w curr_y chart.cpu_stats
    disk ← disk_chart scale clip w disk_y chart.disk_stats
    (mem, y) ← mem_chart scale clip w mem_y chart.mem_stats
    ok (cpu ++ (disk ++ mem), y)

  -- The charts, if they are wanted, and `curr_y` behind them.
  unfoldable pub optional_charts :
      RenderOptions → TimeScale → Rect → Chart V → ℕ → ℤ → Result (List Drawing × ℕ)
  unfolding render_charts
  optional_charts options scale clip chart curr_y w =
      if options.charts then render_charts scale clip chart curr_y w else ok ([], curr_y)

  -- What the process chart depends on. A clip that ends above 0 shows what one shows that ends at 0;
  -- the rectangle is that of the chart later on.
  abbrev pub view_of : Surface → Rect → Chart V → View
  view_of surface clip chart = record {
    rect = clip;
    start_time = chart.start_time;
    duration = chart.duration;
    bottom = pos_part (clip.y +ℤ clip.h);
    show_all = surface.show_all;
    show_pid = surface.show_pid;
    text_width = surface.text_width;
  }

  -- The part of `render` behind the charts: the processes and the cumulative graphs.
  unfoldable pub render_processes :
      RenderOptions → Surface → Ratio → Rect → Chart V → List Drawing → ℕ → Result Page
  unfolding extents
  render_processes options surface xscale clip chart drawings curr_y = do
    let size = extents options xscale chart
    let w = size.0 -ℤ pos (2 * off_x)
    let has_graphs = chart.has_taskstats && options.cumulative
    let proc_height = if has_graphs then size.1 - cuml_height else size.1
    bars ←
        draw_process_bar_chart surface.label_w (view_of surface clip chart) options.kernel_only
          chart.times curr_y w (pos proc_height) (sec_w_of xscale) chart.process_tree
    ok (record {
      size = size;
      drawings = drawings;
      bars = bars;
      graphs = if has_graphs then place_graphs clip w proc_height else [];
    })

  -- render; the texts of draw_header are those of Draw/Header.
  unfoldable pub render : RenderOptions → Surface → Ratio → Rect → Chart V → Result Page
  unfolding extents optional_charts render_processes
  render options surface xscale clip chart = do
    let size = extents options xscale chart
    let w = size.0 -ℤ pos (2 * off_x)
    let top = if options.kernel_only then off_y else draw_header surface.first_h surface.text_h
    (drawings, curr_y) ← optional_charts options (scale_of xscale chart) clip chart top w
    render_processes options surface xscale clip chart drawings curr_y
