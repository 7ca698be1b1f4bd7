-- ===== src/Samples/Stats/Laws.antt =====
-- The run of a process, as `calc_stats` reads it off its samples.
use bootchart.Prelude.{◌≡◌, List, [], ◌∷◌, arith}
use bootchart.Prelude.Int.{ℤ, ◌+ℤ◌, ◌≤ℤ◌, min_ℤ, min_ℤ-le_right, min_ℤ-le_left, int_laws}
use bootchart.Prelude.Sort.{IsSortedBy}
use bootchart.Samples.{Process, ProcessSample, end_time}
use bootchart.Samples.Stats.{Load, last_sample_time, calc_times, calc_stats}

module _ {V : Type 0} where
  abbrev pub sample_time : ProcessSample V → ℤ
  sample_time s = s.time

  -- Every sample lies between `from` and `to`.
  abbrev pub AllBetween : ℤ → ℤ → List (ProcessSample V) → Type 0
  AllBetween from to [] = Unit
  AllBetween from to (s ∷ ss) = (from ≤ℤ s.time) × (s.time ≤ℤ to) × AllBetween from to ss

module _ {V : Type 0} ⦃load : Load V⦄ where
  -- In a sorted list the first sample is the earliest, and the last one the latest.
  between_ends :
      (from : ℤ) (s : ProcessSample V) (ss : List (ProcessSample V))
      → IsSortedBy sample_time (s ∷ ss)
      → from ≤ℤ s.time
      → (s.time ≤ℤ last_sample_time s.time ss)
        × AllBetween from (last_sample_time s.time ss) (s ∷ ss)
  unfolding last_sample_time
  between_ends from s [] sorted h = (omega arith, (h, omega arith, tt))
  between_ends from s (t ∷ ts) sorted h =
      let (le, all) = between_ends from t ts sorted.1 (omega (arith, sorted.0)) in
      let first : s.time ≤ℤ last_sample_time t.time ts = omega (arith, sorted.0) in
      (first, (h, first, all))

  -- For a process with samples in the order of their times `calc_stats` sets a run that holds them
  -- all: it starts with the first sample or before, and lasts one sample period beyond the last.
  pub calc_stats-AllBetween :
      (sample_period : ℤ) (p : Process V) (s : ProcessSample V) (ss : List (ProcessSample V))
      → p.samples ≡ s ∷ ss
      → IsSortedBy sample_time (s ∷ ss)
      → AllBetween (calc_stats sample_period p).start_time (last_sample_time s.time ss) p.samples
        × (end_time (calc_stats sample_period p) ≡ last_sample_time s.time ss +ℤ sample_period)
        × ((calc_stats sample_period p).start_time ≤ℤ p.start_time)
  unfolding calc_stats calc_times end_time
  calc_stats-AllBetween period p s ss e sorted =
      let (le, all) =
        between_ends (min_ℤ s.time p.start_time) s ss sorted (min_ℤ-le_left s.time p.start_time) in
      rw e (all, omega int_laws, min_ℤ-le_right s.time p.start_time)
