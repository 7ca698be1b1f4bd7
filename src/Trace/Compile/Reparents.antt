-- ===== src/Trace/Compile/Reparents.antt =====
-- The parents that `compile` finds, process by process.
use mathlib.Core.Path.{subst}
use bootchart.Prelude.{
  ap, sym, ℕ, ◌<◌, ◌≡◌, refl, ◌∙◌, Option, none, some, List, [], ◌∷◌, if◌then◌else◌,
}
use bootchart.Prelude.Int.{ℤ, pos, ◌*ℤ◌, eqb_ℤ, floor_div}
use bootchart.Prelude.Dict.{Dict, AllPairs, contains-map_values, get, int_key, map_values}
use bootchart.Samples.{Process, ProcessSample}
use bootchart.Samples.Stats.{Load, calc_times, calc_stats, set_parent}
use bootchart.Trace.Parents.{has_process}
use bootchart.Trace.Parents.Laws.{Nearest}
use bootchart.Trace.Compile.{CmdLine, merge_cmdline, merge_cmdlines, real_pid, compile}
use bootchart.Trace.Compile.Laws.{AllDescend}
use bootchart.Trace.Compile.Parenting.{
  HasPpid, Reparents, AllPairs-weaken, AllPairs-map_values, reparent_all-AllPairs, Reparents-step,
}

-- The entry of the cmdline log for a pid, if there is a log.
abbrev pub entry_of : Option (Dict ℤ CmdLine) → ℤ → Option CmdLine
entry_of none pid = none
entry_of (some cmdline) pid = get cmdline pid

module _ {V : Type 0} where
  -- `q` has the command line of the entry, or that of `p` where there is none.
  abbrev pub IsCalled : Option CmdLine → Process V → Process V → Type 0
  IsCalled none p q = (q.exe ≡ p.exe) × (q.args ≡ p.args)
  IsCalled (some c) p q = (q.exe ≡ c.exe) × (q.args ≡ c.args)

  -- The pid of the parent: the nearest ancestor in the log that has a process, or the old one where
  -- there is no such ancestor or no log.
  abbrev pub HasParent : Option (Dict ℤ ℤ) → Dict ℤ (Process V) → Process V → Process V → Type 0
  HasParent none map p q = q.ppid ≡ p.ppid
  HasParent (some parent_map) map p q =
      (ancestor : ℤ) × Nearest parent_map map ancestor (floor_div p.pid 1000)
      × (q.ppid ≡ (if eqb_ℤ ancestor (pos 0) then p.ppid else ancestor *ℤ pos 1000))

  -- What `compile` makes of a process `p` of the map.
  abbrev pub Compiled :
      Option (Dict ℤ CmdLine)
      → Option (Dict ℤ ℤ)
      → Dict ℤ (Process V)
      → Process V
      → Process V
      → Type 0
  Compiled cmdline parent_map map p q =
      IsCalled (entry_of cmdline (floor_div p.pid 1000)) p q × HasParent parent_map map p q

  -- The nearest ancestor depends on the keys alone.
  Nearest-keys :
      (parent_map : Dict ℤ ℤ) (m n : Dict ℤ (Process V)) (r : ℤ)
      → ((pid : ℤ) → has_process parent_map m pid ≡ has_process parent_map n pid)
      → {pid : ℤ} → Nearest parent_map m r pid
      → Nearest parent_map n r pid
  Nearest-keys parent_map m n r same (Nearest.end root e) = Nearest.end root e
  Nearest-keys parent_map m n r same (Nearest.found apart step has) =
      Nearest.found apart step (sym (same r) ∙ has)
  Nearest-keys parent_map m n r same (Nearest.further ppid apart step has rest) =
      Nearest.further ppid apart step (sym (same ppid) ∙ has)
        (Nearest-keys parent_map m n r same rest)

  has_process-map_values :
      (parent_map : Dict ℤ ℤ) (f : Process V → Process V) (map : Dict ℤ (Process V)) (pid : ℤ)
      → has_process parent_map (map_values f map) pid ≡ has_process parent_map map pid
  unfolding has_process
  has_process-map_values parent_map f map pid = contains-map_values f map (pid *ℤ pos 1000)

  AllPairs-along :
      (R S : Process V → Process V → Type 0) (f : Process V → Process V) (m e : Dict ℤ (Process V))
      → ((p q : Process V) → R (f p) q → S p q)
      → AllPairs R (map_values f m) e
      → AllPairs S m e
  unfolding map_values
  AllPairs-along R S f [] [] step h = tt
  AllPairs-along R S f [] (x ∷ e) step h = h
  AllPairs-along R S f (x ∷ m) [] step h = h
  AllPairs-along R S f ((j, v) ∷ m) ((k, w) ∷ e) step (same, r, rs) =
      (same, step v w r, AllPairs-along R S f m e step rs)

  -- The process with the command line of an entry.
  abbrev with_entry : Option CmdLine → Process V → Process V
  with_entry entry p = elim entry [ none ↦ p | some c ↦ record p { exe = c.exe; args = c.args } ]

  merge_cmdline-entry :
      (cmdline : Dict ℤ CmdLine) (p : Process V)
      → merge_cmdline cmdline p ≡ with_entry (get cmdline (floor_div p.pid 1000)) p
  unfolding merge_cmdline real_pid
  merge_cmdline-entry cmdline p = refl

  with_entry-IsCalled :
      (c : Option CmdLine) (p : Process V)
      → IsCalled c p (with_entry c p)
        × ((with_entry c p).ppid ≡ p.ppid)
        × ((with_entry c p).pid ≡ p.pid)
  with_entry-IsCalled none p = ((refl, refl), refl, refl)
  with_entry-IsCalled (some c) p = ((refl, refl), refl, refl)

  merge_cmdline-IsCalled :
      (cmdline : Dict ℤ CmdLine) (p : Process V)
      → IsCalled (get cmdline (floor_div p.pid 1000)) p (merge_cmdline cmdline p)
        × ((merge_cmdline cmdline p).ppid ≡ p.ppid)
        × ((merge_cmdline cmdline p).pid ≡ p.pid)
  merge_cmdline-IsCalled cmdline p =
      let c = get cmdline (floor_div p.pid 1000) in
      subst (λ q. IsCalled c p q × (q.ppid ≡ p.ppid) × (q.pid ≡ p.pid))
        (sym (merge_cmdline-entry cmdline p)) (with_entry-IsCalled c p)

  IsCalled-trans :
      (c : Option CmdLine) (p q s : Process V)
      → IsCalled c p q
      → s.exe ≡ q.exe
      → s.args ≡ q.args
      → IsCalled c p s
  IsCalled-trans none p q s h e a = (e ∙ h.0, a ∙ h.1)
  IsCalled-trans (some c) p q s h e a = (e ∙ h.0, a ∙ h.1)

  -- A process whose command line has been merged in, behind the search for its parent.
  Reparents-Compiled :
      (cmdline : Option (Dict ℤ CmdLine)) (parent_map : Option (Dict ℤ ℤ))
      (m map : Dict ℤ (Process V)) (p p' q : Process V)
      → ((pm : Dict ℤ ℤ) (pid : ℤ) → has_process pm m pid ≡ has_process pm map pid)
      → IsCalled (entry_of cmdline (floor_div p.pid 1000)) p p'
      → p'.ppid ≡ p.ppid
      → p'.pid ≡ p.pid
      → Reparents parent_map m p' q
      → Compiled cmdline parent_map map p q
  unfolding real_pid
  Reparents-Compiled cmdline none m map p p' q keys called ppid pid h = (
    IsCalled-trans (entry_of cmdline (floor_div p.pid 1000)) p p' q called h.named h.called,
    h.parented ∙ ppid,
  )
  Reparents-Compiled cmdline (some pm) m map p p' q keys called ppid pid h = (
    IsCalled-trans (entry_of cmdline (floor_div p.pid 1000)) p p' q called h.has_ppid.named
        h.has_ppid.called,
    (
      h.ancestor,
      subst (λ n. Nearest pm map h.ancestor (floor_div n 1000)) pid
          (Nearest-keys pm m map h.ancestor (keys pm) h.nearest),
      h.has_ppid.parented
          ∙ ap (λ n. if eqb_ℤ h.ancestor (pos 0) then n else h.ancestor *ℤ pos 1000) ppid,
    ),
  )

  merge_cmdlines-Compiled :
      (cmdline : Option (Dict ℤ CmdLine)) (parent_map : Option (Dict ℤ ℤ))
      (map e : Dict ℤ (Process V))
      → AllPairs (Reparents parent_map (merge_cmdlines cmdline map)) (merge_cmdlines cmdline map) e
      → AllPairs (Compiled cmdline parent_map map) map e
  unfolding merge_cmdlines
  merge_cmdlines-Compiled none parent_map map e h =
      AllPairs-weaken (Reparents parent_map map) (Compiled none parent_map map) map e
        (λ p q.
          Reparents-Compiled none parent_map map map p p q (λ pm pid. refl) (refl, refl) refl refl)
        h
  merge_cmdlines-Compiled (some cmdline) parent_map map e h =
      AllPairs-along (Reparents parent_map (map_values (merge_cmdline cmdline) map))
        (Compiled (some cmdline) parent_map map) (merge_cmdline cmdline) map e
        (λ p q.
          let (called, ppid, pid) = merge_cmdline-IsCalled cmdline p in
          Reparents-Compiled (some cmdline) parent_map (map_values (merge_cmdline cmdline) map) map
            p (merge_cmdline cmdline p) q
            (λ pm. has_process-map_values pm (merge_cmdline cmdline) map) called ppid pid)
        h

module _ {V : Type 0} ⦃load : Load V⦄ where
  calc_times-HasPpid :
      (period : ℤ) (ss : List (ProcessSample V)) (q : Process V)
      → HasPpid q.ppid q (calc_times period ss q)
  unfolding calc_times
  calc_times-HasPpid period [] q = record { named = refl; called = refl; parented = refl }
  calc_times-HasPpid period (s ∷ ss) q = record { named = refl; called = refl; parented = refl }

  calc_stats-HasPpid : (period : ℤ) (q : Process V) → HasPpid q.ppid q (calc_stats period q)
  unfolding calc_stats
  calc_stats-HasPpid period q =
      let h = calc_times-HasPpid period q.samples q in
      record { named = h.named; called = h.called; parented = h.parented }

  -- Where the parents of the log go round in no circle, `compile` ends, with the keys of the map.
  -- Process by process, the result has the command line of the cmdline log for its real pid, or as
  -- it was if there is none; and the parent of a process is its nearest ancestor in the log that has a
  -- process, or as it was if there is none or no log.
  pub compile-Reparents :
      (rank : ℤ → ℕ) (depth : ℕ) (cmdline : Option (Dict ℤ CmdLine))
      (parent_map : Option (Dict ℤ ℤ)) (sample_period : ℤ) (map : Dict ℤ (Process V))
      → AllDescend parent_map rank
      → ((pid : ℤ) → rank pid < depth)
      → (map' : Dict ℤ (Process V)) × (compile depth cmdline parent_map sample_period map
          ≡ some map')
        × AllPairs (Compiled cmdline parent_map map) map map'
  unfolding compile set_parent
  compile-Reparents rank depth cmdline parent_map period map down deep =
      let merged = merge_cmdlines cmdline map in
      let (m, run, pairs) = reparent_all-AllPairs rank depth parent_map merged down deep in
      let out = map_values (calc_stats period) (map_values (set_parent m) m) in
      (
        out,
        rw run refl,
        merge_cmdlines-Compiled cmdline parent_map map out (
            AllPairs-map_values (Reparents parent_map merged) _ (calc_stats period) merged _
              (Reparents-step parent_map merged (calc_stats period) (calc_stats-HasPpid period))
              (AllPairs-map_values (Reparents parent_map merged) _ (set_parent m) merged m
                (Reparents-step parent_map merged (set_parent m)
                  (λ q. record { named = refl; called = refl; parented = refl }))
                pairs)),
      )
