-- ===== src/Parse/Taskstats/Laws.antt =====
-- What the taskstats log gives: the samples of every process.
use bootchart.Prelude.{
  ◌≡◌, refl, sym, ap, ◌⊎◌, inl, inr, Option, none, some, List, [], ◌∷◌, ◌++◌, Text, codes, text_eq,
  Bool-cases,
}
use mathlib.Core.Path.{subst}
use bootchart.Prelude.Int.{ℤ, pos, ◌+ℤ◌, ◌-ℤ◌, ◌≤ℤ◌, ◌<ℤ◌, ltb_ℤ, int_laws, ltb_ℤ→lt, ltb_ℤ→ge}
use bootchart.Prelude.Dict.{Dict, int_key, get, AllEntries, AllEntries-put, AllEntries-get}
use bootchart.Prelude.Results.{ok, >>=-eq-ok, ok-injective, fold_results, fold_results_inv, ◌>>=◌}
use bootchart.Samples.{Process, ProcessSample, new_process, split}
use bootchart.Parse.Blocks.{TimedBlock, parse_timed_blocks}
use bootchart.Parse.Taskstats.{
  TaskLine, TaskState, ProcessStats, rewritten, find_at, find_process, state_of, take_sample,
  add_line, read_line, add_read, add_text, add_block, init_state, stats_of, parse_taskstats_log,
}

-- The process ran, or it did not and waited for a disk; in sum something was counted.
pub record IsActive (s : ProcessSample ℤ) : Type 0 where
  pub total : pos 0 <ℤ s.cpu_sample.user +ℤ s.cpu_sample.io +ℤ s.cpu_sample.swap
  pub reason :
      ((s.state ≡ codes "R") × (pos 0 <ℤ s.cpu_sample.user))
      ⊎ ((s.state ≡ codes "D")
          × (s.cpu_sample.user ≤ℤ pos 0)
          × (pos 0 <ℤ s.cpu_sample.io +ℤ s.cpu_sample.swap))

abbrev pub AllActive : List (ProcessSample ℤ) → Type 0
AllActive [] = Unit
AllActive (s ∷ ss) = IsActive s × AllActive ss

AllActive-append :
    (ss : List (ProcessSample ℤ)) (s : ProcessSample ℤ)
    → AllActive ss
    → IsActive s
    → AllActive (ss ++ s ∷ [])
AllActive-append [] s h a = (a, tt)
AllActive-append (t ∷ ts) s h a = (h.0, AllActive-append ts s h.1 a)

-- The state of a sample that is kept follows from its three deltas.
state_of_cases :
    (cpu blkio swapin : ℤ)
    → pos 0 <ℤ cpu +ℤ blkio +ℤ swapin
    → ((state_of cpu blkio swapin ≡ codes "R") × (pos 0 <ℤ cpu))
      ⊎ ((state_of cpu blkio swapin ≡ codes "D") × (cpu ≤ℤ pos 0) × (pos 0 <ℤ blkio +ℤ swapin))
unfolding state_of
state_of_cases cpu blkio swapin h = elim (Bool-cases (ltb_ℤ (pos 0) cpu)) [
  | inl e ↦ inl (rw e refl, ltb_ℤ→lt (pos 0) cpu e)
  | inr e ↦ elim (Bool-cases (ltb_ℤ (pos 0) (blkio +ℤ swapin))) [
    | inl b ↦ inr (rw (e, b) refl, ltb_ℤ→ge (pos 0) cpu e, ltb_ℤ→lt (pos 0) (blkio +ℤ swapin) b)
    | inr b ↦
        let idle = ltb_ℤ→ge (pos 0) cpu e in
        let no_wait = ltb_ℤ→ge (pos 0) (blkio +ℤ swapin) b in absurd (omega int_laws)
  ]
]

take_sample-AllActive :
    (time : ℤ) (line : TaskLine) (p : Process ℤ)
    → AllActive p.samples
    → AllActive (take_sample time line p).samples
unfolding take_sample
take_sample-AllActive time line p h =
    let cpu = line.cpu_ns -ℤ p.last_cpu_ns in
    let blkio = line.blkio_delay_ns -ℤ p.last_blkio_delay_ns in
    let swapin = line.swapin_delay_ns -ℤ p.last_swapin_delay_ns in
    elim (Bool-cases (ltb_ℤ (pos 0) (cpu +ℤ blkio +ℤ swapin))) [
      | inl e ↦
          let total = ltb_ℤ→lt (pos 0) (cpu +ℤ blkio +ℤ swapin) e in
          rw e (
            AllActive-append p.samples _ h
              (record { total = total; reason = state_of_cases cpu blkio swapin total }))
      | inr e ↦ rw e h
    ]

-- Every process of a map has active samples only.
abbrev pub AllProcessesActive : Dict ℤ (Process ℤ) → Type 0
AllProcessesActive = AllEntries (λ k p. AllActive p.samples)

abbrev ActiveEntry : ℤ → Process ℤ → Type 0
ActiveEntry k p = AllActive p.samples

find_at-AllActive :
    (time : ℤ) (line : TaskLine) (s : TaskState) (pid : ℤ) (found : Option (Process ℤ))
    → AllProcessesActive s.process_map
    → ((p : Process ℤ) → found ≡ some p → AllActive p.samples)
    → AllActive (find_at time line s pid found).1.samples
      × AllProcessesActive (find_at time line s pid found).2.process_map
unfolding find_at new_process split
find_at-AllActive time line s pid none h g = (
  tt,
  AllEntries-put ActiveEntry s.process_map pid (new_process pid line.cmd line.ppid time) h tt,
)
find_at-AllActive time line s pid (some p) h g = elim (Bool-cases (text_eq p.cmd line.cmd)) [
  | inl e ↦ rw e (g p refl, h)
  | inr e ↦ rw e (
    tt,
    AllEntries-put ActiveEntry s.process_map (pid +ℤ pos 1)
        (split p (pid +ℤ pos 1) line.cmd line.ppid time) h tt,
  )
]

find_process-AllActive :
    (time : ℤ) (line : TaskLine) (s : TaskState)
    → AllProcessesActive s.process_map
    → AllActive (find_process time line s).1.samples
      × AllProcessesActive (find_process time line s).2.process_map
unfolding find_process
find_process-AllActive time line s h =
    find_at-AllActive time line s (rewritten line s) (get s.process_map (rewritten line s)) h
      (λ p. AllEntries-get ActiveEntry s.process_map (rewritten line s) p h)

add_line-AllActive :
    (time : ℤ) (line : TaskLine) (s : TaskState)
    → AllProcessesActive s.process_map
    → AllProcessesActive (add_line time line s).process_map
unfolding add_line
add_line-AllActive time line s h =
    let found = find_process-AllActive time line s h in
    AllEntries-put ActiveEntry (find_process time line s).2.process_map (find_process time line s).0
      (take_sample time line (find_process time line s).1) found.1
      (take_sample-AllActive time line (find_process time line s).1 found.0)

add_read-AllActive :
    (time : ℤ) (s : TaskState) (line : Option TaskLine)
    → AllProcessesActive s.process_map
    → AllProcessesActive (add_read time s line).process_map
unfolding add_read
add_read-AllActive time s none h = h
add_read-AllActive time s (some line) h = add_line-AllActive time line s h

add_text-AllActive :
    (time : ℤ) (s : TaskState) (text : Text) (s' : TaskState)
    → AllProcessesActive s.process_map
    → add_text time s text ≡ ok s'
    → AllProcessesActive s'.process_map
unfolding add_text
add_text-AllActive time s text s' h e =
    let (line, read, added) = >>=-eq-ok (read_line text) (λ l. ok (add_read time s l)) e in
    subst (λ t. AllProcessesActive t.process_map) (ok-injective added)
      (add_read-AllActive time s line h)

add_block-AllActive :
    (s : TaskState) (b : TimedBlock) (s' : TaskState)
    → AllProcessesActive s.process_map
    → add_block s b ≡ ok s'
    → AllProcessesActive s'.process_map
unfolding add_block
add_block-AllActive s b s' h e =
    fold_results_inv (λ t. AllProcessesActive t.process_map) (add_text b.time)
      (add_text-AllActive b.time) s b.lines s' h e

stats_of-map :
    (blocks : List TimedBlock) (s : TaskState) (stats : ProcessStats ℤ)
    → stats_of blocks s ≡ some stats
    → stats.process_map ≡ s.process_map
unfolding stats_of
stats_of-map [] s stats e = cc
stats_of-map (b ∷ []) s stats e = cc
stats_of-map (b ∷ c ∷ bs) s stats e =
    sym (ap (λ o. elim o [ none ↦ s.process_map | some t ↦ t.process_map ]) e)

-- Every sample that the taskstats log yields is one in which the process ran ('R') or waited for a
-- disk ('D'), as its deltas say: the state 'S' is made up for no sample that is kept.
pub parse_taskstats_log-AllActive :
    (text : Text) (stats : ProcessStats ℤ)
    → parse_taskstats_log text ≡ ok (some stats)
    → AllProcessesActive stats.process_map
unfolding parse_taskstats_log init_state
parse_taskstats_log-AllActive text stats e =
    let (blocks, read, rest) =
      >>=-eq-ok (parse_timed_blocks text)
        (λ bs. fold_results add_block init_state bs >>= λ s. ok (stats_of bs s)) e in
    let (s, added, last) =
      >>=-eq-ok (fold_results add_block init_state blocks) (λ s. ok (stats_of blocks s)) rest in
    rw (stats_of-map blocks s stats (ok-injective last)) (
      fold_results_inv (λ t. AllProcessesActive t.process_map) add_block add_block-AllActive
        init_state blocks s (tt, tt) added)
