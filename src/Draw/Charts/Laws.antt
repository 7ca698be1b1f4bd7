-- ===== src/Draw/Charts/Laws.antt =====
-- The charts are drawn where there are samples.
use bootchart.Prelude.{
  ℕ, ◌+◌, ◌<◌, ◌≤◌, ◌≡◌, refl, inl, inr, Bool, true, false, Bool-cases, arith, List, [], ◌∷◌, map,
  Option, none, some, branches,
}
use bootchart.Prelude.Results.{Result, ok, ◌>>=◌}
use bootchart.Prelude.Int.{ℤ, pos, ◌-ℤ◌, ◌≤ℤ◌, ◌<ℤ◌, eqb_ℤ, eqb_ℤ_iff, int_laws}
use bootchart.Prelude.Ratio.{ratio, divide}
use bootchart.Draw.Sizes.{off_x, bar_h, meminfo_bar_h}
use bootchart.Draw.Clip.{Rect, clip_visible}
use bootchart.Draw.Axis.Returns.{draw_box_ticks-returns, draw_annotations-returns}
use bootchart.Draw.Curve.{Sample, Range, range_of, max_from, plot, path_of, draw_chart}
use bootchart.Draw.Curve.Within.{max_from-AllAtMost}
use bootchart.Draw.Charts.{
  CpuPoint, DiskPoint, MemPoint, Drawing, TimeScale, Series, framed, plotted, if_seen, cpu_curves,
  cpu_chart, util_curve, tput_curve, disk_chart, max_sample, used, mem_scale, mem_curves, mem_chart,
  io_sample, load_sample, frame, series, legend, chart_rect, util_sample, tput_sample, used_sample,
  unbuffered_sample, cached_sample, swap_sample,
}

-- What a chart returns.
abbrev pub Returns {ℓ} : {A : Type ℓ} → Result A → Type ℓ
Returns {A} r = (a : A) × (r ≡ ok a)

-- A step that returns, and what follows it.
pub Returns-then {ℓ κ} :
    {A : Type ℓ} {B : Type κ} (r : Result A) (next : A → Result B)
    → Returns r
    → ((a : A) → Returns (next a))
    → Returns (r >>= next)
Returns-then r next (a, e) go = let (b, f) = go a in (b, rw e f)

-- The time scale of a chart with a duration and seconds that are seen.
pub record Proper (scale : TimeScale) : Type 0 where
  pub has_duration : ¬ (scale.duration ≡ pos 0)
  pub has_seconds : 0 < scale.sec_w
  pub has_unit : pos 1 ≤ℤ scale.unit

-- The range of the values is not empty.
abbrev IsSpread : Option (ℤ × ℤ) → Type 0
IsSpread none = Unit
IsSpread (some (low, high)) = low <ℤ high

test_apart : (a : ℤ) → pos 1 ≤ℤ a → eqb_ℤ a (pos 0) ≡ false
test_apart a le = ground (arith, le)

range_of-spread :
    (unit max_y : ℤ) (data_range : Option (ℤ × ℤ))
    → pos 1 ≤ℤ unit
    → IsSpread data_range
    → eqb_ℤ (range_of unit data_range max_y).span (pos 0) ≡ false
unfolding range_of
range_of-spread unit max_y (some (low, high)) positive spread =
    test_apart (high -ℤ low) (omega (int_laws, spread))
range_of-spread unit max_y none positive spread =
    branches (λ span. eqb_ℤ span (pos 0) ≡ false) (eqb_ℤ max_y (pos 0))
      (λ e. test_apart unit positive) (λ e. e)

draw_chart-Returns :
    (unit : ℤ) (fill : Bool) (bounds : Rect) (s : Sample) (ss : List Sample) (x_shift : ℤ)
    (data_range : Option (ℤ × ℤ))
    → pos 1 ≤ℤ unit
    → pos 1 ≤ℤ s.time
    → IsSpread data_range
    → Returns (draw_chart unit fill bounds (s ∷ ss) x_shift data_range)
unfolding draw_chart plot
draw_chart-Returns unit fill bounds s ss x_shift data_range positive late spread =
    let max_x : ℤ = max_from s.time (map (λ (t : Sample). t.time) ss) in
    let max_y : ℤ = max_from s.value (map (λ (t : Sample). t.value) ss) in
    let range : Range = range_of unit data_range max_y in
    let first = (max_from-AllAtMost s.time (map (λ (t : Sample). t.time) ss)).0 in
    (
      record {
        x_den = max_x;
        y_den = range.span;
        path = path_of fill bounds x_shift max_x range s ss;
      },
      rw
          (
            test_apart max_x (omega (arith, late, first)),
            range_of-spread unit max_y data_range positive spread,
          )
          refl,
    )

module _ (scale : TimeScale) (proper : Proper scale) (rect : Rect) where
  framed-Returns : Returns (framed scale rect)
  unfolding framed
  framed-Returns =
      Returns-then _ _ (draw_box_ticks-returns rect scale.sec_w proper.has_seconds) λ ticks.
        Returns-then _ _
          (draw_annotations-returns rect scale.start_time scale.duration scale.times
            proper.has_duration)
          λ places. (frame rect ticks places, refl)

  plotted-Returns :
      (name : Series) (fill : Bool) (s : Sample) (ss : List Sample) (data_range : Option (ℤ × ℤ))
      → pos 1 ≤ℤ s.time
      → IsSpread data_range
      → Returns (plotted scale rect name fill (s ∷ ss) data_range)
  unfolding plotted
  plotted-Returns name fill s ss data_range late spread =
      Returns-then _ _
        (draw_chart-Returns scale.unit fill rect s ss scale.start_time data_range proper.has_unit
          late spread)
        λ curve. (series name rect curve, refl)

if_seen-Returns :
    (clip rect : Rect) (drawings : Result (List Drawing))
    → Returns drawings
    → Returns (if_seen clip rect drawings)
unfolding if_seen
if_seen-Returns clip rect drawings h =
    branches Returns (clip_visible clip rect) (λ e. h) (λ e. ([], refl))

-- There are samples, and the first one is after the time 0.
abbrev pub CpuReady : List CpuPoint → Type 0
CpuReady [] = ⊥
CpuReady (p ∷ ps) = pos 1 ≤ℤ p.time

abbrev pub DiskReady : List DiskPoint → Type 0
DiskReady [] = ⊥
DiskReady (p ∷ ps) = pos 1 ≤ℤ p.time

-- There are no samples, or the first one is after the time 0 and has memory in use.
abbrev pub MemReady : List MemPoint → Type 0
MemReady [] = Unit
MemReady (m ∷ ms) = (pos 1 ≤ℤ m.time) × (m.mem_free <ℤ m.mem_total)

divide-Returns : (a b : ℤ) → ¬ (b ≡ pos 0) → Returns (divide a b)
unfolding divide
divide-Returns a b apart = elim (Bool-cases (eqb_ℤ b (pos 0))) [
  | inl e ↦ absurd (apart ((eqb_ℤ_iff b (pos 0)).0 e))
  | inr e ↦ (ratio a b, rw e refl)
]

mem_scale-positive :
    (m : MemPoint) (ms : List MemPoint) → m.mem_free <ℤ m.mem_total → pos 0 <ℤ mem_scale m ms
unfolding mem_scale
mem_scale-positive m ms h =
    let first = (max_from-AllAtMost (used m) (map used ms)).0 in omega (int_laws, h, first)

module _ (scale : TimeScale) (proper : Proper scale) (clip : Rect) (w : ℤ) (curr_y : ℕ) where
  pub cpu_chart-Returns :
      (stats : List CpuPoint) → CpuReady stats → Returns (cpu_chart scale clip w curr_y stats)
  unfolding cpu_chart cpu_curves
  cpu_chart-Returns [] h = elim h [ ]
  cpu_chart-Returns (p ∷ ps) late =
      let rect : Rect = chart_rect w curr_y bar_h in
      let curves : Returns (cpu_curves scale rect (p ∷ ps)) =
        Returns-then _ _ (framed-Returns scale proper rect) λ box.
          Returns-then _ _
            (plotted-Returns scale proper rect Series.io_wait true (io_sample p) (map io_sample ps)
              none late tt)
            λ io.
              Returns-then _ _
                (plotted-Returns scale proper rect Series.cpu_load true (load_sample p)
                  (map load_sample ps) none late tt)
                λ load. (box ∷ io ∷ load ∷ [], refl) in
      Returns-then _ _ (if_seen-Returns clip rect _ curves) λ drawn. (_, refl)

  pub disk_chart-Returns :
      (stats : List DiskPoint) → DiskReady stats → Returns (disk_chart scale clip w curr_y stats)
  unfolding disk_chart util_curve tput_curve max_sample
  disk_chart-Returns [] h = elim h [ ]
  disk_chart-Returns (p ∷ ps) late =
      let rect : Rect = chart_rect w curr_y bar_h in
      let util : Returns (util_curve scale rect (p ∷ ps)) =
        Returns-then _ _ (framed-Returns scale proper rect) λ box.
          Returns-then _ _
            (plotted-Returns scale proper rect Series.disk_utilization true (util_sample p)
              (map util_sample ps) none late tt)
            λ curve. (box ∷ curve ∷ [], refl) in
      let tput : Returns (tput_curve scale rect (p ∷ ps)) =
        Returns-then _ _
          (plotted-Returns scale proper rect Series.disk_throughput false (tput_sample p)
            (map tput_sample ps) none late tt)
          λ curve. (curve ∷ [], refl) in
      Returns-then _ _ (if_seen-Returns clip rect _ util) λ drawn.
        Returns-then _ _ (if_seen-Returns clip rect _ tput) λ line.
          Returns-then _ _ (divide-Returns _ scale.duration proper.has_duration) λ q. (_, refl)

  mem_curves-Returns :
      (rect : Rect) (m : MemPoint) (ms : List MemPoint)
      → MemReady (m ∷ ms)
      → Returns (mem_curves scale rect m ms)
  unfolding mem_curves
  mem_curves-Returns rect m ms (late, in_use) =
      let range : Option (ℤ × ℤ) = some (pos 0, mem_scale m ms) in
      let spread : pos 0 <ℤ mem_scale m ms = mem_scale-positive m ms in_use in
      let draws = plotted-Returns scale proper rect in
      Returns-then _ _ (framed-Returns scale proper rect) λ box.
        Returns-then _ _
          (draws Series.mem_buffers true (used_sample m) (map used_sample ms) range late spread)
          λ a.
            Returns-then _ _
              (draws Series.mem_used true (unbuffered_sample m) (map unbuffered_sample ms) range
                late spread)
              λ b.
                Returns-then _ _
                  (draws Series.mem_cached true (cached_sample m) (map cached_sample ms) range late
                    spread)
                  λ c.
                    Returns-then _ _
                      (draws Series.mem_swap false (swap_sample scale.unit m)
                        (map (swap_sample scale.unit) ms) none late tt)
                      λ d. (box ∷ a ∷ b ∷ c ∷ d ∷ [], refl)

  -- The memory chart takes at most its own height.
  pub mem_chart-returns :
      (stats : List MemPoint)
      → MemReady stats
      → (d : List Drawing) × (y : ℕ) × (mem_chart scale clip w curr_y stats ≡ ok (d, y))
        × (y ≤ curr_y + 110)
  unfolding mem_chart
  mem_chart-returns [] h = ([], curr_y, refl, omega arith)
  mem_chart-returns (m ∷ ms) h =
      let rect : Rect = chart_rect w curr_y meminfo_bar_h in
      let (curves, drawn) = mem_curves-Returns rect m ms h in
      branches
        (λ (r : Result (List Drawing × ℕ)).
          (d : List Drawing) × (y : ℕ) × (r ≡ ok (d, y)) × (y ≤ curr_y + 110))
        (clip_visible clip rect)
        (λ e. (
          legend off_x (curr_y + 20)
              ∷ legend (off_x + 240) (curr_y + 20)
              ∷ legend (off_x + 360) (curr_y + 20)
              ∷ legend (off_x + 480) (curr_y + 20)
              ∷ curves,
          curr_y + meminfo_bar_h,
          rw drawn refl,
          omega arith,
        ))
        (λ e. ([], curr_y, refl, omega arith))
