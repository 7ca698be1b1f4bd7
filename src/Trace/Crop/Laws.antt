-- ===== src/Trace/Crop/Laws.antt =====
-- What `crop` leaves.
use mathlib.Core.Path.{subst}
use bootchart.Trace.Crop.Idle.{FirstIdle, find_idle-FirstIdle}
use bootchart.Trace.Crop.Select.{Selected, select_proc-Selected}
use bootchart.Prelude.{
  sym, arith, ◌≡◌, ◌≢◌, refl, ap, ◌⊎◌, inl, inr, false, Option, none, some, List, [], ◌∷◌, ◌++◌,
  Text, ◌||◌, Bool-cases,
}
use bootchart.Prelude.Int.{
  min_ℤ, min_ℤ_cases, ℤ, pos, ◌+ℤ◌, ◌-ℤ◌, ◌≤ℤ◌, ◌<ℤ◌, ltb_ℤ, ltb_ℤ→lt, leb_ℤ, int_laws, ltb_ℤ→ge,
  leb_ℤ→le,
}
use bootchart.Prelude.Dict.{Dict, int_key, map_values}
use bootchart.Samples.{Process, ProcessSample, end_time}
use bootchart.Trace.Crop.{
  Point, Logs, is_named, pop_last, pop_after, select_proc, crop_process, started, crop_at,
  crop_names, crop_found, crop, find_idle,
}

module _ {A : Type 0} (time : A → ℤ) where
  -- The last element, if there is one, is not after `at`.
  abbrev pub LastBy : ℤ → List A → Type 0
  LastBy at [] = Unit
  LastBy at (x ∷ []) = time x ≤ℤ at
  LastBy at (x ∷ y ∷ ys) = LastBy at (y ∷ ys)

  -- Every element is after `at`.
  abbrev pub AllAfter : ℤ → List A → Type 0
  AllAfter at [] = Unit
  AllAfter at (x ∷ xs) = (at <ℤ time x) × AllAfter at xs

  -- `kept` is what is left of `xs` when the elements after `at` have been popped off its end.
  pub record IsPopped (at : ℤ) (xs kept : List A) : Type 0 where
    pub popped : List A
    pub whole : xs ≡ kept ++ popped
    pub late : AllAfter at popped
    pub last : LastBy at kept

  pop_last-IsPopped :
      (at : ℤ) (x : A) (xs kept : List A)
      → IsPopped at xs kept
      → IsPopped at (x ∷ xs) (pop_last time at x kept)
  unfolding pop_last
  pop_last-IsPopped at x xs [] h = elim (Bool-cases (ltb_ℤ at (time x))) [
    | inl e ↦ rw e (record {
      popped = x ∷ h.popped;
      whole = ap (◌∷◌ x) h.whole;
      late = (ltb_ℤ→lt at (time x) e, h.late);
      last = tt;
    })
    | inr e ↦ rw e (record {
      popped = h.popped;
      whole = ap (◌∷◌ x) h.whole;
      late = h.late;
      last = ltb_ℤ→ge at (time x) e;
    })
  ]
  pop_last-IsPopped at x xs (y ∷ ys) h = record {
    popped = h.popped;
    whole = ap (◌∷◌ x) h.whole;
    late = h.late;
    last = h.last;
  }

  pub pop_after-IsPopped : (at : ℤ) (xs : List A) → IsPopped at xs (pop_after time at xs)
  unfolding pop_after
  pop_after-IsPopped at [] = record { popped = []; whole = refl; late = tt; last = tt }
  pop_after-IsPopped at (x ∷ xs) =
      pop_last-IsPopped at x xs (pop_after time at xs) (pop_after-IsPopped at xs)

later : (a b : ℤ) → leb_ℤ a b ≡ false → b <ℤ a
later a b e = ground (arith, e)

+ℤ-min_ℤ :
    (start duration at : ℤ) → start +ℤ min_ℤ duration (at -ℤ start) ≡ min_ℤ (start +ℤ duration) at
+ℤ-min_ℤ start duration at = elim (min_ℤ_cases duration (at -ℤ start)) [
  | inl (e, le) ↦ elim (min_ℤ_cases (start +ℤ duration) at) [
    | inl (f, lf) ↦ rw (e, f) refl
    | inr (f, lf) ↦ rw (e, f) (omega (int_laws, le, lf))
  ]
  | inr (e, le) ↦ elim (min_ℤ_cases (start +ℤ duration) at) [
    | inl (f, lf) ↦ rw (e, f) (omega (int_laws, le, lf))
    | inr (f, lf) ↦ rw (e, f) (omega (int_laws, le, lf))
  ]
]

module _ {V : Type 0} where
  -- `q` is the process `p` as far as it lies within the chart.
  pub record IsCut (at : ℤ) (p q : Process V) : Type 0 where
    pub pid : q.pid ≡ p.pid
    pub start : q.start_time ≡ p.start_time
    pub starts : q.start_time ≤ℤ at
    pub ending : end_time q ≡ min_ℤ (end_time p) at
    pub sampled : IsPopped (λ (s : ProcessSample V). s.time) at p.samples q.samples

  crop_process-IsCut :
      (at : ℤ) (p : Process V) → p.start_time ≤ℤ at → IsCut at p (crop_process at p)
  unfolding crop_process end_time
  crop_process-IsCut at p h = record {
    pid = refl;
    start = refl;
    starts = h;
    ending = +ℤ-min_ℤ p.start_time p.duration at;
    sampled = pop_after-IsPopped (λ (s : ProcessSample V). s.time) at p.samples;
  }

  -- The map after a crop, entry by entry: a process that has started by `at` stays with its key, cut off
  -- there, and one that starts later goes.
  pub data CropsMap (at : ℤ) : Dict ℤ (Process V) → Dict ℤ (Process V) → Type 0 where
    at_end : CropsMap at [] []
    stays :
        {k : ℤ} {p q : Process V} {before after : Dict ℤ (Process V)}
        → p.start_time ≤ℤ at
        → IsCut at p q
        → CropsMap at before after
        → CropsMap at ((k, p) ∷ before) ((k, q) ∷ after)
    goes :
        {k : ℤ} {p : Process V} {before after : Dict ℤ (Process V)}
        → at <ℤ p.start_time
        → CropsMap at before after
        → CropsMap at ((k, p) ∷ before) after

  started-CropsMap :
      (at : ℤ) (map : Dict ℤ (Process V))
      → CropsMap at map (map_values (crop_process at) (started at map))
  unfolding started map_values
  started-CropsMap at [] = at_end
  started-CropsMap at ((k, p) ∷ map) = elim (Bool-cases (leb_ℤ p.start_time at)) [
    | inl e ↦
        let early = leb_ℤ→le p.start_time at e in
        rw e (stays early (crop_process-IsCut at p early) (started-CropsMap at map))
    | inr e ↦ rw e (goes (later p.start_time at e) (started-CropsMap at map))
  ]

  -- What `crop` leaves when it finds an idle time: 300 later the chart ends. The processes that are
  -- left are exactly those that have started by then, each cut off there, and the samples of the two logs that
  -- are gone are the later ones at their ends.
  pub record IsCropped (at : ℤ) (before after : Logs V) : Type 0 where
    pub processes : CropsMap at before.process_map after.process_map
    pub cpu : IsPopped (λ (u : Point). u.time) at before.cpu_stats after.cpu_stats
    pub disk : IsPopped (λ (u : Point). u.time) at before.disk_stats after.disk_stats
    pub ending : after.end_time ≡ at

  crop_at-IsCropped : (at : ℤ) (logs : Logs V) → IsCropped at logs (crop_at at logs)
  unfolding crop_at
  crop_at-IsCropped at logs = record {
    processes = started-CropsMap at logs.process_map;
    cpu = pop_after-IsPopped (λ (u : Point). u.time) at logs.cpu_stats;
    disk = pop_after-IsPopped (λ (u : Point). u.time) at logs.disk_stats;
    ending = refl;
  }

  select_proc_total :
      (names : List Text) (last : Option (Process V)) (map : Dict ℤ (Process V))
      → (last ≢ none) ⊎ (map ≢ [])
      → (p : Process V) × (select_proc names last map ≡ some p)
  unfolding select_proc
  select_proc_total names none [] (inl h) = absurd (h refl)
  select_proc_total names none [] (inr h) = absurd (h refl)
  select_proc_total names (some p) [] h = (p, refl)
  select_proc_total names last ((k, p) ∷ map) h =
      elim (Bool-cases (is_named p.cmd names || is_named p.exe names)) [
        | inl e ↦ (p, rw e refl)
        | inr e ↦
            let (q, run) = select_proc_total names (some p) map (inl (λ no_proc. cc no_proc)) in
            (q, rw e run)
      ]

  -- What `crop` does with the idle time that it finds, if it finds one.
  abbrev pub CropsAt : Option ℤ → Logs V → Logs V → Type 0
  CropsAt none before after = after ≡ before
  CropsAt (some idle) before after = IsCropped (idle +ℤ pos 300) before after

  crop_found-CropsAt :
      (idle : Option ℤ) (logs : Logs V)
      → ((crop_found idle logs).0 ≡ idle) × CropsAt idle logs (crop_found idle logs).1
  unfolding crop_found
  crop_found-CropsAt none logs = (refl, refl)
  crop_found-CropsAt (some idle) logs = (refl, crop_at-IsCropped (idle +ℤ pos 300) logs)

  -- Whatever the names: with a process in the map `crop` returns. It looks for an idle time after the
  -- first process of the map whose command or path is one of the names, or after the last process of
  -- the map if there is none: the first CPU sample from the start of that process on at which both the
  -- CPU and the disk are idle. If there is one, all the logs are cropped 300 after it, so that exactly
  -- the processes that have started by then stay; if there is none, they are left as they are.
  pub crop-CropsAt :
      (full : ℤ) (names : Text) (logs : Logs V)
      → logs.process_map ≢ []
      → (p : Process V) × (out : Option ℤ × Logs V) × (crop full names logs ≡ some out)
        × Selected (crop_names names) none logs.process_map (some p)
        × FirstIdle full logs.disk_stats p.start_time logs.cpu_stats out.0
        × CropsAt out.0 logs out.1
  unfolding crop
  crop-CropsAt full names logs h =
      let (p, run) = select_proc_total (crop_names names) none logs.process_map (inr h) in
      let idle = find_idle full logs.disk_stats p.start_time logs.cpu_stats in
      let (same, crops) = crop_found-CropsAt idle logs in
      (
        p,
        crop_found idle logs,
        rw run refl,
        subst (Selected (crop_names names) none logs.process_map) run
            (select_proc-Selected (crop_names names) none logs.process_map),
        subst (FirstIdle full logs.disk_stats p.start_time logs.cpu_stats) (sym same)
            (find_idle-FirstIdle full logs.disk_stats p.start_time logs.cpu_stats),
        rw same crops,
      )

  -- The last process of a map.
  unfoldable pub last_process : Option (Process V) → Dict ℤ (Process V) → Option (Process V)
  last_process last [] = last
  last_process last ((k, p) ∷ map) = last_process (some p) map
