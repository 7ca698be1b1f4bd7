-- ===== src/Trace/Crop.antt =====
-- Trace.crop: the chart ends with the first idle period after a given process. Loads are whole
-- multiples of 1 / `full`, so that a quarter is `4 * load == full`.
pub mod Idle
pub mod Select
pub mod Laws
use bootchart.Prelude.{
  ℕ, zero, suc, ◌+◌, Bool, true, false, Option, none, some, List, [], ◌∷◌, map, take, length, Text,
  text_eq, ◌||◌, ◌&&◌, if◌then◌else◌, ◌>>=◌,
}
use bootchart.Prelude.Int.{ℤ, pos, ◌+ℤ◌, ◌-ℤ◌, ◌*ℤ◌, min_ℤ, leb_ℤ, ltb_ℤ}
use bootchart.Prelude.Dict.{Dict, int_key, map_values}
use bootchart.Prelude.Words.{split_on}
use bootchart.Samples.{Process, ProcessSample}

-- A sample of `cpu_stats`, with `user + sys + io`, or of `disk_stats`, with `util`.
pub record Point : Type 0 where
  pub time : ℤ
  pub load : ℤ

-- util[j:k+1] behind its first element: the points before `start + 300`, and one more if there is.
unfoldable pub stretch : ℤ → List Point → List Point
stretch start [] = []
stretch start (u ∷ us) = if ltb_ℤ u.time (start +ℤ pos 300) then u ∷ stretch start us else u ∷ []

unfoldable pub sum_load : List Point → ℤ
sum_load [] = pos 0
sum_load (u ∷ us) = u.load +ℤ sum_load us

-- is_idle_at, for util[j:]: less than a quarter at once, and on the average.
unfoldable pub is_idle_at : ℤ → ℤ → Point → List Point → Bool
unfolding stretch sum_load
is_idle_at full start u rest =
    let window : List Point = u ∷ stretch start rest in
    if leb_ℤ full (pos 4 *ℤ u.load)
    then false
    else ltb_ℤ (pos 4 *ℤ sum_load window) (full *ℤ pos (length window))

-- is_idle: at the first point that is not before `start`.
unfoldable pub is_idle : ℤ → List Point → ℤ → Bool
unfolding is_idle_at
is_idle full [] start = false
is_idle full (u ∷ us) start =
    if ltb_ℤ u.time start then is_idle full us start else is_idle_at full start u us

-- The search for the first idle point after the start of the process.
unfoldable pub find_idle : ℤ → List Point → ℤ → List Point → Option ℤ
unfolding is_idle_at is_idle
find_idle full disk start [] = none
find_idle full disk start (u ∷ us) =
    let rest = find_idle full disk start us in
    if ltb_ℤ u.time start
    then rest
    else if is_idle_at full u.time u us && is_idle full disk u.time
    then some u.time
    else rest

-- cmd in names
unfoldable pub is_named : Text → List Text → Bool
is_named cmd [] = false
is_named cmd (n ∷ ns) = text_eq cmd n || is_named cmd ns

-- [x[:15] for x in crop_after.split(",")]
unfoldable pub crop_names : Text → List Text
crop_names crop_after = map (take 15) (split_on b',' crop_after)

-- `while len(samples) and samples[-1].time > crop_at: samples.pop()`: an element goes if all behind it
-- have gone and it is too late itself.
module _ {A : Type 0} (time : A → ℤ) where
  unfoldable pub pop_last : ℤ → A → List A → List A
  pop_last crop_at x [] = if ltb_ℤ crop_at (time x) then [] else x ∷ []
  pop_last crop_at x (y ∷ ys) = x ∷ y ∷ ys

  unfoldable pub pop_after : ℤ → List A → List A
  unfolding pop_last
  pop_after crop_at [] = []
  pop_after crop_at (x ∷ xs) = pop_last crop_at x (pop_after crop_at xs)

module _ {V : Type 0} where
  -- The loop that selects a process: the variable `proc` after it, `none` for an empty map.
  unfoldable pub select_proc :
      List Text → Option (Process V) → Dict ℤ (Process V) → Option (Process V)
  unfolding is_named
  select_proc names last [] = last
  select_proc names last ((k, p) ∷ map) =
      let rest = select_proc names (some p) map in
      if is_named p.cmd names || is_named p.exe names then some p else rest

  unfoldable pub crop_process : ℤ → Process V → Process V
  unfolding pop_after
  crop_process crop_at p = record p {
    duration = min_ℤ p.duration (crop_at -ℤ p.start_time);
    samples = pop_after (λ (s : ProcessSample V). s.time) crop_at p.samples;
  }

  -- cropped_map, then its processes.
  unfoldable pub started : ℤ → Dict ℤ (Process V) → Dict ℤ (Process V)
  started crop_at [] = []
  started crop_at ((k, p) ∷ map) =
      if leb_ℤ p.start_time crop_at then (k, p) ∷ started crop_at map else started crop_at map

-- What `crop` reads and changes.
pub record Logs (V : Type 0) : Type 0 where
  pub cpu_stats : List Point
  pub disk_stats : List Point
  pub process_map : Dict ℤ (Process V)
  pub end_time : ℤ

module _ {V : Type 0} where
  unfoldable pub crop_at : ℤ → Logs V → Logs V
  unfolding pop_after started crop_process
  crop_at at logs = record {
    cpu_stats = pop_after (λ (u : Point). u.time) at logs.cpu_stats;
    disk_stats = pop_after (λ (u : Point). u.time) at logs.disk_stats;
    process_map = map_values (crop_process at) (started at logs.process_map);
    end_time = at;
  }

  -- The part after the search: no idle time, or a crop.
  unfoldable pub crop_found : Option ℤ → Logs V → Option ℤ × Logs V
  unfolding crop_at
  crop_found none logs = (none, logs)
  crop_found (some idle) logs = (some idle, crop_at (idle +ℤ pos 300) logs)

  -- `crop`: the idle time, and the logs. An empty map has no process, and is an error there.
  unfoldable pub crop : ℤ → Text → Logs V → Option (Option ℤ × Logs V)
  unfolding select_proc crop_names find_idle crop_found
  crop full crop_after logs = do
    proc ← select_proc (crop_names crop_after) none logs.process_map
    some (crop_found (find_idle full logs.disk_stats proc.start_time logs.cpu_stats) logs)
