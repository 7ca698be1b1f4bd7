-- ===== src/Draw/Charts.antt =====
-- render_charts of draw.py, chart by chart: what is drawn above the processes, and the exceptions of
-- draw_box_ticks, draw_annotations, draw_chart and `max` on the way.
pub mod Laws
use bootchart.Prelude.{
  ℕ, ◌+◌, Bool, true, false, List, [], ◌∷◌, ◌++◌, map, Option, none, some, if◌then◌else◌,
}
use bootchart.Prelude.Results.{Result, ok, or_raise, ◌>>=◌, value_error}
use bootchart.Prelude.Int.{ℤ, pos, negsuc, ◌-ℤ◌, ◌*ℤ◌, ltb_ℤ}
use bootchart.Prelude.Ratio.{Ratio, divide, add_ratio, is_positive}
use bootchart.Draw.Sizes.{off_x, bar_h, meminfo_bar_h}
use bootchart.Draw.Clip.{Rect, clip_visible}
use bootchart.Draw.Axis.{Tick, draw_box_ticks, draw_annotations}
use bootchart.Draw.Curve.{Sample, Curve, max_from, draw_chart}

-- The shares of a sample of `cpu_stats`, in multiples of one over `unit`: user + sys + io, and user + sys.
pub record CpuPoint : Type 0 where
  pub time : ℤ
  pub io_wait : ℤ
  pub load : ℤ

-- A sample of `disk_stats`, in multiples of one over `unit`.
pub record DiskPoint : Type 0 where
  pub time : ℤ
  pub util : ℤ
  pub tput : ℤ

-- A sample of `mem_stats`: what is read of its records.
pub record MemPoint : Type 0 where
  pub time : ℤ
  pub mem_total : ℤ
  pub mem_free : ℤ
  pub buffers : ℤ
  pub cached : ℤ
  pub swap_total : ℤ
  pub swap_free : ℤ

pub data Series : Type 0 where
  io_wait : Series
  cpu_load : Series
  disk_utilization : Series
  disk_throughput : Series
  mem_buffers : Series
  mem_used : Series
  mem_cached : Series
  mem_swap : Series

-- What is drawn: a legend at a place, the frame of a chart with its ticks and annotations, a series in a
-- chart, and the label of the greatest throughput.
pub data Drawing : Type 0 where
  legend : ℕ → ℕ → Drawing
  frame : Rect → List Tick → List Ratio → Drawing
  series : Series → Rect → Curve → Drawing
  peak_label : Ratio → ℕ → Drawing

abbrev pub chart_rect : ℤ → ℕ → ℕ → Rect
chart_rect w curr_y height = record { x = pos off_x; y = pos (curr_y + 30); w = w; h = pos height }

-- What all charts have in common.
pub record TimeScale : Type 0 where
  pub start_time : ℤ
  pub duration : ℤ
  pub times : List (Option ℤ)
  pub sec_w : ℕ
  pub unit : ℤ

-- draw_box_ticks and draw_annotations
unfoldable pub framed : TimeScale → Rect → Result Drawing
unfolding draw_box_ticks draw_annotations
framed scale rect = do
  ticks ← draw_box_ticks rect scale.sec_w
  places ← draw_annotations rect scale.start_time scale.duration scale.times
  ok (frame rect ticks places)

-- draw_chart, with its exceptions
unfoldable pub plotted :
    TimeScale → Rect → Series → Bool → List Sample → Option (ℤ × ℤ) → Result Drawing
unfolding draw_chart
plotted scale rect name fill samples data_range = do
  curve ← draw_chart scale.unit fill rect samples scale.start_time data_range
  ok (series name rect curve)

-- `if clip_visible (clip, chart_rect)`
unfoldable pub if_seen : Rect → Rect → Result (List Drawing) → Result (List Drawing)
if_seen clip rect drawings = if clip_visible clip rect then drawings else ok []

abbrev pub io_sample : CpuPoint → Sample
io_sample p = record { time = p.time; value = p.io_wait }

abbrev pub load_sample : CpuPoint → Sample
load_sample p = record { time = p.time; value = p.load }

-- render_charts: `render I/O wait` and `render CPU load`
unfoldable pub cpu_curves : TimeScale → Rect → List CpuPoint → Result (List Drawing)
unfolding framed plotted
cpu_curves scale rect stats = do
  box ← framed scale rect
  io ← plotted scale rect io_wait true (map io_sample stats) none
  load ← plotted scale rect cpu_load true (map load_sample stats) none
  ok (box ∷ io ∷ load ∷ [])

unfoldable pub cpu_chart : TimeScale → Rect → ℤ → ℕ → List CpuPoint → Result (List Drawing)
unfolding if_seen cpu_curves
cpu_chart scale clip w curr_y stats = do
  let rect = chart_rect w curr_y bar_h
  curves ← if_seen clip rect (cpu_curves scale rect stats)
  ok (legend off_x (curr_y + 20) ∷ legend (off_x + 120) (curr_y + 20) ∷ curves)

-- The label beside `pos_x`, or behind it near the left edge.
unfoldable pub label_at : Ratio → ℕ → Drawing
unfolding is_positive
label_at pos_x curr_y =
    let room : Ratio =
      add_ratio (record { num = pos 255; den = 1 }) (record pos_x { num = pos 0 -ℤ pos_x.num }) in
    if is_positive room
    then peak_label (add_ratio pos_x (record { num = pos 5; den = 1 })) (curr_y + 40)
    else peak_label (add_ratio pos_x (record { num = negsuc 19; den = 1 })) (curr_y + 20)

-- max (trace.disk_stats, key = lambda s: s.tput): the first one of the greatest.
unfoldable pub greatest : DiskPoint → List DiskPoint → DiskPoint
greatest d [] = d
greatest d (e ∷ es) = greatest (if ltb_ℤ d.tput e.tput then e else d) es

unfoldable pub max_sample : List DiskPoint → Option DiskPoint
unfolding greatest
max_sample [] = none
max_sample (d ∷ ds) = some (greatest d ds)

abbrev pub util_sample : DiskPoint → Sample
util_sample p = record { time = p.time; value = p.util }

abbrev pub tput_sample : DiskPoint → Sample
tput_sample p = record { time = p.time; value = p.tput }

-- `render I/O utilization`
unfoldable pub util_curve : TimeScale → Rect → List DiskPoint → Result (List Drawing)
unfolding framed plotted
util_curve scale rect stats = do
  box ← framed scale rect
  util ← plotted scale rect disk_utilization true (map util_sample stats) none
  ok (box ∷ util ∷ [])

-- `render disk throughput`
unfoldable pub tput_curve : TimeScale → Rect → List DiskPoint → Result (List Drawing)
unfolding plotted
tput_curve scale rect stats = do
  tput ← plotted scale rect disk_throughput false (map tput_sample stats) none
  ok (tput ∷ [])

-- Both, with the label of the greatest throughput; `max` raises for no samples.
unfoldable pub disk_chart : TimeScale → Rect → ℤ → ℕ → List DiskPoint → Result (List Drawing)
unfolding if_seen util_curve tput_curve max_sample divide label_at
disk_chart scale clip w curr_y stats = do
  let rect = chart_rect w curr_y bar_h
  util ← if_seen clip rect (util_curve scale rect stats)
  peak ← or_raise value_error (max_sample stats)
  tput ← if_seen clip rect (tput_curve scale rect stats)
  q ← divide ((peak.time -ℤ scale.start_time) *ℤ w) scale.duration
  ok (
      legend off_x (curr_y + 20)
      ∷ legend (off_x + 120) (curr_y + 20)
      ∷ (util
          ++ (tput ++ label_at (add_ratio (record { num = pos off_x; den = 1 }) q) curr_y ∷ [])))

abbrev pub used : MemPoint → ℤ
used m = m.mem_total -ℤ m.mem_free

abbrev pub used_sample : MemPoint → Sample
used_sample m = record { time = m.time; value = used m }

abbrev pub unbuffered_sample : MemPoint → Sample
unbuffered_sample m = record { time = m.time; value = used m -ℤ m.buffers }

abbrev pub cached_sample : MemPoint → Sample
cached_sample m = record { time = m.time; value = m.cached }

-- The swap has no range of its own, so that its value is a multiple of one over `unit`.
abbrev pub swap_sample : ℤ → MemPoint → Sample
swap_sample unit m = record { time = m.time; value = (m.swap_total -ℤ m.swap_free) *ℤ unit }

unfoldable pub mem_scale : MemPoint → List MemPoint → ℤ
unfolding max_from
mem_scale m ms = max_from (used m) (map used ms)

unfoldable pub mem_curves : TimeScale → Rect → MemPoint → List MemPoint → Result (List Drawing)
unfolding framed plotted mem_scale
mem_curves scale rect m ms = do
  let range = some (pos 0, mem_scale m ms)
  box ← framed scale rect
  buffers ← plotted scale rect mem_buffers true (map used_sample (m ∷ ms)) range
  rest ← plotted scale rect mem_used true (map unbuffered_sample (m ∷ ms)) range
  cached ← plotted scale rect mem_cached true (map cached_sample (m ∷ ms)) range
  swap ← plotted scale rect mem_swap false (map (swap_sample scale.unit) (m ∷ ms)) none
  ok (box ∷ buffers ∷ rest ∷ cached ∷ swap ∷ [])

-- `render mem usage`: the chart, and `curr_y` behind it.
unfoldable pub mem_chart : TimeScale → Rect → ℤ → ℕ → List MemPoint → Result (List Drawing × ℕ)
unfolding mem_curves
mem_chart scale clip w curr_y [] = ok ([], curr_y)
mem_chart scale clip w curr_y (m ∷ ms) =
    let rect : Rect = chart_rect w curr_y meminfo_bar_h in
    let seen : Result (List Drawing × ℕ) = (do
      curves ← mem_curves scale rect m ms
      ok (
        legend off_x (curr_y + 20)
            ∷ legend (off_x + 240) (curr_y + 20)
            ∷ legend (off_x + 360) (curr_y + 20)
            ∷ legend (off_x + 480) (curr_y + 20)
            ∷ curves,
        curr_y + meminfo_bar_h,
      )) in
    if clip_visible clip rect then seen else ok ([], curr_y)
