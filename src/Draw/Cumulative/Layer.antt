-- ===== src/Draw/Cumulative/Layer.antt =====
-- draw_cuml_graph of draw.py: the layer of one group, drawn on the layers below it, for the sample times
-- from left to right.
pub mod Heights
pub mod Laws
use bootchart.Prelude.{
  ℕ, suc, ◌*◌, Bool, true, false, ◌||◌, not, ltb, List, [], ◌∷◌, ◌++◌, if◌then◌else◌, Option, none,
  some,
}
use bootchart.Prelude.Results.{Result, ok, err, or_raise, ◌>>=◌, key_error}
use bootchart.Prelude.Int.{ℤ, pos, ◌+ℤ◌, ◌-ℤ◌, ◌*ℤ◌, eqb_ℤ}
use bootchart.Prelude.Ratio.{Ratio, ratio, divide, round_ratio, ceil_ratio}
use bootchart.Prelude.Dict.{Dict, int_key, get, put}
use bootchart.Samples.{ProcessSample}
use bootchart.Draw.Clip.{Rect}
use bootchart.Draw.Cumulative.{StatType, sample_value}

-- What the layers share: `chart_bounds`, `proc_tree.start_time`, `proc_tree.duration` and `total_time`.
pub record Scale : Type 0 where
  pub bounds : Rect
  pub start_time : ℤ
  pub duration : ℤ
  pub total_time : ℤ

-- time * pix_per_ns
unfoldable pub to_pixels : Scale → ℤ → Ratio
to_pixels scale time = ratio (time *ℤ scale.bounds.h) scale.total_time

-- The loop over the samples of a group: the time up to each of them, and the time of all.
unfoldable pub accumulate : StatType → ℤ → Dict ℤ ℤ → List (ProcessSample ℤ) → ℤ × Dict ℤ ℤ
unfolding sample_value
accumulate stat cuml row [] = (cuml, row)
accumulate stat cuml row (s ∷ ss) =
    let next : ℤ = cuml +ℤ sample_value stat s in accumulate stat next (put row s.time next) ss

-- The variables of the loop over the times.
pub record Seg : Type 0 where
  pub last_time : ℤ
  pub y : ℤ
  pub last_below : ℤ
  pub last_cuml : ℤ
  pub cuml : ℤ
  pub row : Dict ℤ ℤ
  pub rectangles : List Rect

-- The left edge of a segment.
unfoldable pub x_of : Scale → ℤ → Result ℤ
unfolding divide round_ratio
x_of scale time = divide ((time -ℤ scale.start_time) *ℤ scale.bounds.w) scale.duration >>= λ q.
    ok (scale.bounds.x +ℤ round_ratio q)

-- `did the underlying trend increase ?`
unfoldable pub follow_below : Dict ℤ ℤ → ℤ → Seg → Result (Bool × Seg)
follow_below below time s = or_raise key_error (get below time) >>= λ b.
    if eqb_ℤ b s.last_below
    then ok (false, s)
    else or_raise key_error (get below s.last_time) >>= λ last.
        ok (true, record s { last_below = last; last_cuml = s.cuml })

-- `did we move up a pixel increase ?`
unfoldable pub follow_row : Scale → ℤ → Seg → Bool × Seg
unfolding to_pixels round_ratio
follow_row scale time s = elim (get s.row time) [
  | none ↦ (false, s)
  | some v ↦
      let nc : ℤ = round_ratio (to_pixels scale v) in
      if eqb_ℤ nc s.cuml then (false, s) else (true, record s { last_cuml = s.cuml; cuml = nc })
]

-- `draw the trailing rectangle`
unfoldable pub draw_trailing : Scale → Dict ℤ ℤ → ℤ → Seg → Result Seg
unfolding x_of divide ceil_ratio
draw_trailing scale below time s =
    divide ((time -ℤ s.last_time) *ℤ scale.bounds.w) scale.duration >>= λ q.
    x_of scale s.last_time >>= λ x. or_raise key_error (get below s.last_time) >>= λ b.
    or_raise key_error (get below time) >>= λ b'.
    let rect : Rect = record {
      x = x;
      y = b -ℤ s.last_cuml;
      w = ceil_ratio q +ℤ pos 1;
      h = s.last_cuml;
    } in
    ok (record s { last_time = time; y = b' -ℤ s.cuml; rectangles = s.rectangles ++ rect ∷ [] })

-- row[time] = y
abbrev pub put_row : ℤ → Seg → Seg
put_row time s = record s { row = put s.row time s.y }

-- One time of the loop.
unfoldable pub render_time : Scale → Dict ℤ ℤ → Seg → ℤ → Result Seg
unfolding follow_below follow_row draw_trailing
render_time scale below s time = follow_below below time s >>= λ moved.
    let grown : Bool × Seg = follow_row scale time moved.1 in
    if moved.0 || grown.0
    then (draw_trailing scale below time grown.1 >>= λ s'. ok (put_row time s'))
    else ok (put_row time grown.1)

unfoldable pub render_times : Scale → Dict ℤ ℤ → Seg → List ℤ → Result Seg
unfolding render_time
render_times scale below s [] = ok s
render_times scale below s (time ∷ times) =
    render_time scale below s time >>= λ s'. render_times scale below s' times

-- The variables before the first time.
abbrev pub start_seg : ℤ → ℤ → Dict ℤ ℤ → Seg
start_seg first b row = record {
  last_time = first;
  y = b;
  last_below = b;
  last_cuml = pos 0;
  cuml = pos 0;
  row = row;
  rectangles = [];
}

-- `render the last segment`: the rectangle from the last time to the right edge.
unfoldable pub draw_last : Scale → Dict ℤ ℤ → Seg → Result Seg
draw_last scale below s = x_of scale s.last_time >>= λ x.
    or_raise key_error (get below s.last_time) >>= λ b.
    let y : ℤ = b -ℤ s.cuml in
    let rect : Rect = record { x = x; y = y; w = scale.bounds.w -ℤ x; h = s.cuml } in
    ok (record s { y = y; rectangles = s.rectangles ++ rect ∷ [] })

-- The layer of a group with some samples, over the times from `first` on.
unfoldable pub render_layer : Scale → Dict ℤ ℤ → Dict ℤ ℤ → ℤ → List ℤ → Result Seg
render_layer scale below row first times = or_raise key_error (get below first) >>= λ b.
    render_times scale below (start_seg first b row) (first ∷ times) >>= λ s.
    draw_last scale below s
