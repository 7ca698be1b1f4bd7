-- ===== src/Draw/Activity.antt =====
-- draw_process_activity_colors of draw.py: the bars of a process's samples.
pub mod Laws
use bootchart.Prelude.{
  ℕ, ◌+◌, ◌==◌, Bool, true, false, not, ◌||◌, ◌&&◌, List, [], ◌∷◌, Text, codes, if◌then◌else◌,
}
use bootchart.Prelude.Results.{Result, ok, err, ◌>>=◌}
use bootchart.Prelude.Int.{ℤ, pos, negsuc, ◌+ℤ◌, ◌-ℤ◌, ◌*ℤ◌, ltb_ℤ, leb_ℤ, eqb_ℤ, max_ℤ}
use bootchart.Prelude.Ratio.{Ratio, divide, round_ratio}
use bootchart.Prelude.Words.{starts_with}
use bootchart.Samples.{CpuSample, ProcessSample}
use bootchart.Draw.Clip.{Rect}

-- flags.find(flag) + 1, where find is -1 for no place.
unfoldable pub place_of : Text → Text → ℕ → ℕ
place_of flag [] n = if starts_with [] flag then n else 0
place_of flag (c ∷ flags) n =
    let later : ℕ = place_of flag flags (n + 1) in if starts_with (c ∷ flags) flag then n else later

unfoldable pub get_proc_state : Text → ℕ
unfolding place_of
get_proc_state flag = place_of flag (codes "RSDTZXW") 1

-- A filled rectangle of the row of the process. The colour of the state `running`, 1, has an alpha from
-- the CPU sample.
pub record Bar (V : Type 0) : Type 0 where
  pub x : ℤ
  pub w : ℤ
  pub state : ℕ
  pub cpu_sample : CpuSample V

abbrev pub no_last : ℤ
no_last = negsuc 0

-- The start and the width of the bar of a sample at `tx`, where the last bar ended at `last_tx`.
unfoldable pub fit_bar : ℤ → ℤ → ℤ → ℤ × ℤ
fit_bar width last_tx tx =
    let apart : ℤ = last_tx -ℤ tx in
    let is_near : Bool = leb_ℤ apart width && leb_ℤ (pos 0 -ℤ apart) width in
    if not (eqb_ℤ last_tx no_last) && is_near
    then (last_tx, max_ℤ (width -ℤ apart) (pos 1))
    else (tx, max_ℤ width (pos 1))

-- A sample of this state is seen, but no bar is drawn for it.
abbrev pub is_sleeping : ℕ → Bool
is_sleeping state = state == 2

module _ {V : Type 0} where
  -- The loop over the samples, which have been put at their `tx`; `width` is `tw` as computed from the
  -- sample period.
  unfoldable pub draw_bars : Rect → ℤ → ℤ → List (ℤ × ProcessSample V) → List (Bar V)
  draw_bars clip width last_tx [] = []
  draw_bars clip width last_tx ((tx, s) ∷ rest) =
      let bar : ℤ × ℤ = fit_bar width last_tx tx in
      let skipped : List (Bar V) = draw_bars clip width last_tx rest in
      let later : List (Bar V) = draw_bars clip width (bar.0 +ℤ bar.1) rest in
      let state : ℕ = get_proc_state s.state in
      if ltb_ℤ tx clip.x
      then skipped
      else if ltb_ℤ (clip.x +ℤ clip.w) tx
      then []
      else if is_sleeping state
      then later
      else record { x = bar.0; w = bar.1; state = state; cpu_sample = s.cpu_sample } ∷ later

  -- The horizontal place of every sample.
  unfoldable pub place_samples :
      Rect → ℤ → ℤ → List (ProcessSample V) → Result (List (ℤ × ProcessSample V))
  place_samples rect start_time duration [] = ok []
  place_samples rect start_time duration (s ∷ ss) =
      divide ((s.time -ℤ start_time) *ℤ rect.w) duration >>= λ q.
      place_samples rect start_time duration ss >>= λ rest. ok ((rect.x +ℤ round_ratio q, s) ∷ rest)

  -- A row outside of the clip has no bars, and neither has a process without samples.
  unfoldable pub draw_process_activity_colors :
      Rect → Rect → ℤ → ℤ → ℤ → ℤ → ℤ → List (ProcessSample V) → Result (List (Bar V))
  unfolding draw_bars place_samples divide round_ratio
  draw_process_activity_colors clip rect start_time duration sample_period y proc_h samples =
      let drawn : Result (List (Bar V)) =
        (place_samples rect start_time duration samples >>= λ placed.
        divide (sample_period *ℤ rect.w) duration >>= λ q.
        ok (draw_bars clip (round_ratio q) no_last placed)) in
      let is_empty : Bool = elim samples [ [] ↦ true | s ∷ ss ↦ false ] in
      if ltb_ℤ (clip.y +ℤ clip.h) y || ltb_ℤ (y +ℤ proc_h +ℤ pos 2) clip.y || is_empty
      then ok []
      else drawn
