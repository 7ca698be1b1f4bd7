-- ===== src/Examples/Trace.antt =====
-- The parts of Trace on small maps.
use bootchart.Prelude.{
  ℕ, ◌<◌, ◌≡◌, ◌≢◌, ◌⊎◌, if◌then◌else◌, refl, inl, inr, false, Option, none, some, [], ◌∷◌, codes,
  arith,
}
use bootchart.Prelude.Int.{ℤ, pos, eqb_ℤ, ◌*ℤ◌}
use bootchart.Prelude.Dict.{Dict, int_key, get, contains, keys, AllEntries, AllPairs}
use bootchart.Samples.{Process, new_process}
use bootchart.Samples.Stats.{ns_load}
use bootchart.Trace.Parents.{find_parent_id_for, parent_of, has_process}
use bootchart.Trace.Parents.Laws.{
  Descends, Nearest, Circle, find_parent_id_for-Nearest, find_parent_id_for_circle,
}
use bootchart.Trace.Compile.{CmdLine, compile}
use bootchart.Trace.Compile.Laws.{IsLinked, compile-IsLinked}
use bootchart.Trace.Compile.Reparents.{Compiled, compile-Reparents}
use bootchart.Trace.Crop.{crop_names, Point, Logs, crop}
use bootchart.Trace.Crop.Idle.{FirstIdle}
use bootchart.Trace.Crop.Select.{Selected}
use bootchart.Trace.Crop.Laws.{CropsAt, crop-CropsAt}

-- The shell 5 was started by 3, which has left no process, and that by init.
abbrev parent_map : Dict ℤ ℤ
parent_map = (pos 0, pos 0) ∷ (pos 5, pos 3) ∷ (pos 3, pos 1) ∷ []

abbrev process_map : Dict ℤ (Process ℤ)
unfolding new_process
process_map =
    (pos 1000, new_process (pos 1) (codes "[init]") (pos 0) (pos 0))
    ∷ (pos 5000, new_process (pos 5000) (codes "sh") (pos 3000) (pos 100))
    ∷ []

abbrev rank : ℤ → ℕ
rank pid = if eqb_ℤ (pos 5) pid then 2 else if eqb_ℤ (pos 3) pid then 1 else 0

parent_map-Descends : Descends parent_map rank
unfolding parent_of get
parent_map-Descends pid ppid h = ground arith

find_parent_id_for-Nearest_example :
    (r : ℤ) × (find_parent_id_for parent_map process_map 3 (pos 5) ≡ some r)
    × Nearest parent_map process_map r (pos 5)
find_parent_id_for-Nearest_example =
    find_parent_id_for-Nearest parent_map process_map rank 3 (pos 5) parent_map-Descends
      (omega arith)

abbrev cmdline : Dict ℤ CmdLine
cmdline = (pos 5, record { exe = codes "/bin/sh"; args = codes "sh" ∷ codes "-c" ∷ [] }) ∷ []

rank-small : (pid : ℤ) → rank pid < 3
rank-small pid = ground arith

compile-IsLinked_example :
    (map' : Dict ℤ (Process ℤ)) × (compile 3 (some cmdline) (some parent_map) (pos 20) process_map
      ≡ some map')
    × (keys map' ≡ keys process_map)
    × AllEntries (λ k p. IsLinked map' p) map'
compile-IsLinked_example =
    compile-IsLinked rank 3 (some cmdline) (some parent_map) (pos 20) process_map
      parent_map-Descends rank-small

compile-Reparents_example :
    (map' : Dict ℤ (Process ℤ)) × (compile 3 (some cmdline) (some parent_map) (pos 20) process_map
      ≡ some map')
    × AllPairs (Compiled (some cmdline) (some parent_map) process_map) process_map map'
compile-Reparents_example =
    compile-Reparents rank 3 (some cmdline) (some parent_map) (pos 20) process_map
      parent_map-Descends rank-small

-- Two pids that are each other's parents.
abbrev circular : Dict ℤ ℤ
circular = (pos 7, pos 8) ∷ (pos 8, pos 7) ∷ []

abbrev OnCircle : ℤ → Type 0
OnCircle pid = (pid ≡ pos 7) ⊎ (pid ≡ pos 8)

abbrev other : (pid : ℤ) → OnCircle pid → ℤ
other pid (inl h) = pos 8
other pid (inr h) = pos 7

other-OnCircle : (pid : ℤ) (h : OnCircle pid) → OnCircle (other pid h)
other-OnCircle pid (inl h) = inr refl
other-OnCircle pid (inr h) = inl refl

other-apart : (pid : ℤ) → OnCircle pid → eqb_ℤ pid (pos 0) ≡ false
other-apart pid (inl h) = rw h refl
other-apart pid (inr h) = rw h refl

other-step : (pid : ℤ) (h : OnCircle pid) → parent_of circular pid ≡ some (other pid h)
unfolding parent_of get
other-step pid (inl h) = rw h refl
other-step pid (inr h) = rw h refl

other-missing :
    (pid : ℤ) (h : OnCircle pid) → has_process circular process_map (other pid h) ≡ false
unfolding has_process contains ◌*ℤ◌ process_map
other-missing pid (inl h) = refl
other-missing pid (inr h) = refl

circular-Circle : Circle circular process_map OnCircle
circular-Circle = record {
  next = other;
  inside = other-OnCircle;
  apart = other-apart;
  step = other-step;
  missing = other-missing;
}

find_parent_id_for_circle_example : find_parent_id_for circular process_map 1000 (pos 7) ≡ none
find_parent_id_for_circle_example =
    find_parent_id_for_circle circular process_map OnCircle circular-Circle 1000 (pos 7) (inl refl)

abbrev point : ℕ → ℕ → Point
point t load = record { time = pos t; load = pos load }

abbrev logs : Logs ℤ
logs = record {
  cpu_stats = point 100 90 ∷ point 200 10 ∷ point 700 10 ∷ [];
  disk_stats = point 100 50 ∷ point 200 0 ∷ point 700 0 ∷ [];
  process_map = process_map;
  end_time = pos 700;
}

process_map-full : process_map ≢ []
unfolding process_map
process_map-full h = ground arith

crop-CropsAt_example :
    (p : Process ℤ) × (out : Option ℤ × Logs ℤ) × (crop (pos 100) (codes "sh,gdm") logs ≡ some out)
    × Selected (crop_names (codes "sh,gdm")) none logs.process_map (some p)
    × FirstIdle (pos 100) logs.disk_stats p.start_time logs.cpu_stats out.0
    × CropsAt out.0 logs out.1
crop-CropsAt_example = crop-CropsAt (pos 100) (codes "sh,gdm") logs process_map-full
