-- ===== src/Trace/Compile/Laws.antt =====
-- What `compile` makes of a map.
use bootchart.Prelude.{
  Bool, true, false, ℕ, ◌<◌, ◌≡◌, refl, sym, ap, ◌∙◌, Option, none, some, List, [], ◌∷◌,
  if◌then◌else◌,
}
use bootchart.Prelude.Int.{ℤ, eqb_ℤ}
use bootchart.Prelude.Dict.{
  Dict, int_key, get, map_values, try_map_values, AllEntries, AllEntries-always,
  AllEntries-map_values, keys, keys-map_values,
}
use bootchart.Samples.{Process, ProcessSample}
use bootchart.Samples.Stats.{Load, calc_times, calc_stats, set_parent}
use bootchart.Trace.Parents.Laws.{Descends, find_parent_id_for-Nearest}
use bootchart.Trace.Compile.{
  CmdLine, merge_cmdline, merge_cmdlines, reparent, reparent_all, set_ppid, real_pid, compile,
}

-- The parents of a log, if there is one, go round in no circle.
abbrev pub AllDescend : Option (Dict ℤ ℤ) → (ℤ → ℕ) → Type 0
AllDescend none rank = Unit
AllDescend (some parent_map) rank = Descends parent_map rank

module _ {V : Type 0} where
  abbrev pub pid_of : Option (Process V) → Option ℤ
  pid_of o = elim o [ none ↦ none | some q ↦ some q.pid ]

  -- The pid of the process that a map has under a key.
  abbrev pub pid_at : Dict ℤ (Process V) → ℤ → Option ℤ
  pid_at map k = pid_of (get map k)

  -- The parent of a process is the one that the map has under its ppid, and none if there is none.
  abbrev pub IsLinked : Dict ℤ (Process V) → Process V → Type 0
  IsLinked map p = p.parent ≡ pid_at map p.ppid

  pid_of-if :
      (b : Bool) (p q : Process V) (u v : Option (Process V))
      → p.pid ≡ q.pid
      → pid_of u ≡ pid_of v
      → pid_of (if b then some p else u) ≡ pid_of (if b then some q else v)
  pid_of-if true p q u v h k = ap some h
  pid_of-if false p q u v h k = k

  -- A change that keeps the pids keeps what is found under a key.
  pid_at-map_values :
      (f : Process V → Process V) (map : Dict ℤ (Process V)) (k : ℤ)
      → ((p : Process V) → (f p).pid ≡ p.pid)
      → pid_at (map_values f map) k ≡ pid_at map k
  unfolding map_values get
  pid_at-map_values f [] k same = refl
  pid_at-map_values f ((j, p) ∷ map) k same =
      pid_of-if (eqb_ℤ j k) (f p) p (get (map_values f map) k) (get map k) (same p)
        (pid_at-map_values f map k same)

  set_parent-IsLinked : (map : Dict ℤ (Process V)) (p : Process V) → IsLinked map (set_parent map p)
  unfolding set_parent
  set_parent-IsLinked map p = refl

  set_parent-pid : (map : Dict ℤ (Process V)) (p : Process V) → (set_parent map p).pid ≡ p.pid
  unfolding set_parent
  set_parent-pid map p = refl

  keys-merge_cmdlines :
      (cmdline : Option (Dict ℤ CmdLine)) (map : Dict ℤ (Process V))
      → keys (merge_cmdlines cmdline map) ≡ keys map
  unfolding merge_cmdlines
  keys-merge_cmdlines none map = refl
  keys-merge_cmdlines (some c) map = keys-map_values (merge_cmdline c) map

  -- `find` has a result for every process of a map.
  try_map_values_total :
      (f : Process V → Option (Process V)) (map : Dict ℤ (Process V))
      → ((p : Process V) → (q : Process V) × (f p ≡ some q))
      → (map' : Dict ℤ (Process V)) × (try_map_values f map ≡ some map') × (keys map' ≡ keys map)
  unfolding try_map_values keys
  try_map_values_total f [] h = ([], refl, refl)
  try_map_values_total f ((k, p) ∷ map) h =
      let (q, e) = h p in
      let (map', run, same) = try_map_values_total f map h in
      ((k, q) ∷ map', rw (e, run) refl, ap (◌∷◌ k) same)

  reparent_total :
      (rank : ℤ → ℕ) (depth : ℕ) (parent_map : Dict ℤ ℤ) (map : Dict ℤ (Process V))
      → Descends parent_map rank
      → ((pid : ℤ) → rank pid < depth)
      → (p : Process V) → (q : Process V) × (reparent depth parent_map map p ≡ some q)
  unfolding reparent
  reparent_total rank depth parent_map map down deep p =
      let (r, run, near) =
        find_parent_id_for-Nearest parent_map map rank depth (real_pid p) down
          (deep (real_pid p)) in
      (set_ppid p r, rw run refl)

  reparent_all_total :
      (rank : ℤ → ℕ) (depth : ℕ) (parent_map : Option (Dict ℤ ℤ)) (map : Dict ℤ (Process V))
      → AllDescend parent_map rank
      → ((pid : ℤ) → rank pid < depth)
      → (map' : Dict ℤ (Process V)) × (reparent_all depth parent_map map ≡ some map')
        × (keys map' ≡ keys map)
  unfolding reparent_all
  reparent_all_total rank depth none map down deep = (map, refl, refl)
  reparent_all_total rank depth (some parent_map) map down deep =
      try_map_values_total (reparent depth parent_map map) map
        (reparent_total rank depth parent_map map down deep)

module _ {V : Type 0} ⦃load : Load V⦄ where
  calc_times-link :
      (period : ℤ) (ss : List (ProcessSample V)) (p : Process V)
      → ((calc_times period ss p).parent ≡ p.parent)
        × ((calc_times period ss p).ppid ≡ p.ppid)
        × ((calc_times period ss p).pid ≡ p.pid)
  unfolding calc_times
  calc_times-link period [] p = (refl, refl, refl)
  calc_times-link period (s ∷ ss) p = (refl, refl, refl)

  calc_stats-link :
      (period : ℤ) (p : Process V)
      → ((calc_stats period p).parent ≡ p.parent)
        × ((calc_stats period p).ppid ≡ p.ppid)
        × ((calc_stats period p).pid ≡ p.pid)
  unfolding calc_stats
  calc_stats-link period p = calc_times-link period p.samples p

  -- The statistics change neither the links nor the pids that these name.
  calc_stats-IsLinked :
      (period : ℤ) (m m' : Dict ℤ (Process V))
      → ((k : ℤ) → pid_at m' k ≡ pid_at m k)
      → (p : Process V) → IsLinked m p
      → IsLinked m' (calc_stats period p)
  calc_stats-IsLinked period m m' same p h =
      let (parent, ppid, pid) = calc_stats-link period p in
      parent ∙ h ∙ ap (pid_at m) (sym ppid) ∙ sym (same (calc_stats period p).ppid)

  -- Where the parents of the log go round in no circle, `compile` ends. The processes have their
  -- keys, and the parent of each is the process that the map has under its ppid, if there is one.
  pub compile-IsLinked :
      (rank : ℤ → ℕ) (depth : ℕ) (cmdline : Option (Dict ℤ CmdLine))
      (parent_map : Option (Dict ℤ ℤ)) (sample_period : ℤ) (map : Dict ℤ (Process V))
      → AllDescend parent_map rank
      → ((pid : ℤ) → rank pid < depth)
      → (map' : Dict ℤ (Process V)) × (compile depth cmdline parent_map sample_period map
          ≡ some map')
        × (keys map' ≡ keys map)
        × AllEntries (λ k p. IsLinked map' p) map'
  unfolding compile
  compile-IsLinked rank depth cmdline parent_map period map down deep =
      let (m, run, same) =
        reparent_all_total rank depth parent_map (merge_cmdlines cmdline map) down deep in
      let linked = map_values (set_parent m) m in
      (
        map_values (calc_stats period) linked,
        rw run refl,
        keys-map_values (calc_stats period) linked
            ∙ keys-map_values (set_parent m) m
            ∙ same
            ∙ keys-merge_cmdlines cmdline map,
        AllEntries-map_values (λ k p. IsLinked m p) _ (calc_stats period) linked
            (λ k. calc_stats-IsLinked period m _ (λ j.
              pid_at-map_values (calc_stats period) linked j (λ p. (calc_stats-link period p).2)
              ∙ pid_at-map_values (set_parent m) m j (λ p. set_parent-pid m p)))
            (AllEntries-map_values (λ k p. Unit {0}) (λ k p. IsLinked m p) (set_parent m) m
              (λ k p h. set_parent-IsLinked m p)
              (AllEntries-always (λ k p. Unit {0}) m (λ k p. tt))),
      )
