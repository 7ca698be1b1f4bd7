-- ===== src/Draw/Cumulative/Laws.antt =====
-- The groups of the graph lose no time.
use bootchart.Prelude.{
  ◌≡◌, refl, ap, ◌∙◌, inl, inr, none, some, List, [], ◌∷◌, ◌++◌, Text, text_eq, Bool-cases,
  Option-cases, if◌then◌else◌,
}
use bootchart.Prelude.Int.{ℤ, pos, ◌+ℤ◌, leb_ℤ, int_laws, parts_of_eq}
use bootchart.Prelude.Dict.{Dict, int_key, text_key, get, put}
use bootchart.Prelude.Sort.{insert_by, sort_by}
use bootchart.Samples.{Process, ProcessSample}
use bootchart.Draw.Cumulative.{
  StatType, sample_value, CumlSample, merge_samples, new_cuml_sample, Groups, no_groups,
  elide_bootchart, add_samples, grouped, add_to_group, add_proc, group_processes,
}

module _ (stat : StatType) where
  -- The time of some samples, of a group, and of all groups.
  unfoldable pub time_of : List (ProcessSample ℤ) → ℤ
  time_of [] = pos 0
  time_of (s ∷ ss) = sample_value stat s +ℤ time_of ss

  unfoldable pub groups_time : Dict Text CumlSample → ℤ
  groups_time [] = pos 0
  groups_time ((cmd, c) ∷ groups) = time_of c.samples +ℤ groups_time groups

  time_of-append : (ss ts : List (ProcessSample ℤ)) → time_of (ss ++ ts) ≡ time_of ss +ℤ time_of ts
  unfolding time_of
  time_of-append [] ts = omega int_laws
  time_of-append (s ∷ ss) ts = omega (int_laws, parts_of_eq (time_of-append ss ts))

  time_of-insert_by :
      (s : ProcessSample ℤ) (ss : List (ProcessSample ℤ))
      → time_of (insert_by (λ (t : ProcessSample ℤ). t.time) s ss)
        ≡ sample_value stat s +ℤ time_of ss
  unfolding time_of insert_by
  time_of-insert_by s [] = refl
  time_of-insert_by s (t ∷ ss) = elim (Bool-cases (leb_ℤ s.time t.time)) [
    | inl e ↦ rw e refl
    | inr e ↦ rw e (omega (int_laws, parts_of_eq (time_of-insert_by s ss)))
  ]

  time_of-sort_by :
      (ss : List (ProcessSample ℤ))
      → time_of (sort_by (λ (t : ProcessSample ℤ). t.time) ss) ≡ time_of ss
  unfolding time_of sort_by
  time_of-sort_by [] = refl
  time_of-sort_by (s ∷ ss) =
      time_of-insert_by s (sort_by (λ (t : ProcessSample ℤ). t.time) ss)
      ∙ ap (λ x. sample_value stat s +ℤ x) (time_of-sort_by ss)

  time_of-merge_samples :
      (c : CumlSample) (p : Process ℤ)
      → time_of (merge_samples c p).samples ≡ time_of c.samples +ℤ time_of p.samples
  unfolding merge_samples
  time_of-merge_samples c p =
      time_of-sort_by (c.samples ++ p.samples) ∙ time_of-append c.samples p.samples

  groups_time-put_new :
      (groups : Dict Text CumlSample) (cmd : Text) (c : CumlSample)
      → get groups cmd ≡ none
      → groups_time (put groups cmd c) ≡ groups_time groups +ℤ time_of c.samples
  unfolding groups_time put get
  groups_time-put_new [] cmd c h = omega int_laws
  groups_time-put_new ((k, d) ∷ groups) cmd c h = elim (Bool-cases (text_eq k cmd)) [
    | inl e ↦ cc (rw e at h)
    | inr e ↦ rw e (omega (int_laws, parts_of_eq (groups_time-put_new groups cmd c (rw e at h))))
  ]

  groups_time-put :
      (groups : Dict Text CumlSample) (cmd : Text) (c d : CumlSample)
      → get groups cmd ≡ some d
      → groups_time (put groups cmd c) +ℤ time_of d.samples
        ≡ groups_time groups +ℤ time_of c.samples
  unfolding groups_time put get
  groups_time-put [] cmd c d h = cc
  groups_time-put ((k, e) ∷ groups) cmd c d h = elim (Bool-cases (text_eq k cmd)) [
    | inl b ↦ let same : e ≡ d = cc (rw b at h) in rw (b, same) (omega int_laws)
    | inr b ↦ rw b (omega (int_laws, parts_of_eq (groups_time-put groups cmd c d (rw b at h))))
  ]

  time_of-grouped :
      (groups : Dict Text CumlSample) (p : Process ℤ)
      → groups_time (put groups p.cmd (grouped groups p)) ≡ groups_time groups +ℤ time_of p.samples
  unfolding grouped new_cuml_sample time_of
  time_of-grouped groups p = elim (Option-cases (get groups p.cmd)) [
    | inl e ↦
        let c = new_cuml_sample p in
        let time = time_of-merge_samples (record { cmd = p.cmd; samples = [] }) p in
        rw (e, grouped)
          (omega (int_laws, parts_of_eq (groups_time-put_new groups p.cmd c e), parts_of_eq time))
    | inr (c, e) ↦
        let d = merge_samples c p in
        let time = time_of-merge_samples c p in
        rw (e, grouped)
          (omega (int_laws, parts_of_eq (groups_time-put groups p.cmd d c e), parts_of_eq time))
  ]

  total_time-add_samples :
      (g : Groups) (ss : List (ProcessSample ℤ))
      → ((add_samples stat g ss).total_time ≡ g.total_time +ℤ time_of ss)
        × ((add_samples stat g ss).m_proc_list ≡ g.m_proc_list)
  unfolding add_samples time_of
  total_time-add_samples g [] = (omega int_laws, refl)
  total_time-add_samples g (s ∷ ss) =
      let next = record g {
        total_time = g.total_time +ℤ sample_value stat s;
        time_hash = put g.time_hash s.time 1;
      } in
      let rest = total_time-add_samples next ss in (omega (int_laws, parts_of_eq rest.0), rest.1)

  -- The time of the processes that are not elided.
  unfoldable pub kept_time : List (Process ℤ) → ℤ
  unfolding elide_bootchart time_of
  kept_time [] = pos 0
  kept_time (p ∷ ps) = if elide_bootchart p then kept_time ps else time_of p.samples +ℤ kept_time ps

  kept_time-add_proc :
      (g : Groups) (p : Process ℤ) (ps : List (Process ℤ))
      → (groups_time (add_proc stat g p).m_proc_list +ℤ kept_time ps
          ≡ groups_time g.m_proc_list +ℤ kept_time (p ∷ ps))
        × ((add_proc stat g p).total_time +ℤ kept_time ps ≡ g.total_time +ℤ kept_time (p ∷ ps))
  unfolding add_proc add_to_group kept_time
  kept_time-add_proc g p ps = elim (Bool-cases (elide_bootchart p)) [
    | inl e ↦ rw e (refl, refl)
    | inr e ↦
        let added = add_samples stat g p.samples in
        let (total, same) = total_time-add_samples g p.samples in
        let kept : groups_time added.m_proc_list ≡ groups_time g.m_proc_list = rw same refl in
        let time = time_of-grouped added.m_proc_list p in
        rw e (
          omega (int_laws, parts_of_eq kept, parts_of_eq time),
          omega (int_laws, parts_of_eq total),
        )
  ]

  kept_time-group_processes :
      (g : Groups) (ps : List (Process ℤ))
      → (groups_time (group_processes stat g ps).m_proc_list
          ≡ groups_time g.m_proc_list +ℤ kept_time ps)
        × ((group_processes stat g ps).total_time ≡ g.total_time +ℤ kept_time ps)
  unfolding group_processes kept_time
  kept_time-group_processes g [] = (omega int_laws, omega int_laws)
  kept_time-group_processes g (p ∷ ps) =
      let (groups, total) = kept_time-group_processes (add_proc stat g p) ps in
      let (groups', total') = kept_time-add_proc g p ps in (groups ∙ groups', total ∙ total')

-- For any processes and either statistic, the times of the samples in all groups sum to the total, and
-- both are the time of the processes that are not elided: grouping by command line loses no sample and
-- counts none twice.
pub group_processes-kept_time :
    (stat : StatType) (ps : List (Process ℤ))
    → (groups_time stat (group_processes stat no_groups ps).m_proc_list ≡ kept_time stat ps)
      × ((group_processes stat no_groups ps).total_time ≡ kept_time stat ps)
unfolding groups_time
group_processes-kept_time stat ps =
    let (groups, total) = kept_time-group_processes stat no_groups ps in
    (omega (int_laws, parts_of_eq groups), omega (int_laws, parts_of_eq total))
