-- ===== src/Parse/Taskstats/Totals.antt =====
-- The time that a process's samples account for.
use bootchart.Prelude.{◌≡◌, refl, sym, ◌∙◌, ap, inl, inr, List, [], ◌∷◌, ◌++◌, Bool-cases}
use bootchart.Prelude.Int.{ℤ, pos, ◌+ℤ◌, ◌≤ℤ◌, ltb_ℤ, int_laws, ltb_ℤ→ge, +ℤ_assoc, parts_of_eq}
use bootchart.Samples.{Process, ProcessSample}
use bootchart.Parse.Taskstats.{TaskLine, sample_of, advance, take_sample}

-- What the samples of a list have in sum: time on a CPU, and time of waiting for a disk.
unfoldable pub cpu_total : List (ProcessSample ℤ) → ℤ
cpu_total [] = pos 0
cpu_total (s ∷ ss) = s.cpu_sample.user +ℤ cpu_total ss

unfoldable pub io_total : List (ProcessSample ℤ) → ℤ
io_total [] = pos 0
io_total (s ∷ ss) = s.cpu_sample.io +ℤ io_total ss

cpu_total-append :
    (ss : List (ProcessSample ℤ)) (s : ProcessSample ℤ)
    → cpu_total (ss ++ s ∷ []) ≡ cpu_total ss +ℤ s.cpu_sample.user
unfolding cpu_total
cpu_total-append [] s = omega int_laws
cpu_total-append (t ∷ ts) s =
    ap (λ x. t.cpu_sample.user +ℤ x) (cpu_total-append ts s) ∙ sym (+ℤ_assoc _ _ _)

io_total-append :
    (ss : List (ProcessSample ℤ)) (s : ProcessSample ℤ)
    → io_total (ss ++ s ∷ []) ≡ io_total ss +ℤ s.cpu_sample.io
unfolding io_total
io_total-append [] s = omega int_laws
io_total-append (t ∷ ts) s =
    ap (λ x. t.cpu_sample.io +ℤ x) (io_total-append ts s) ∙ sym (+ℤ_assoc _ _ _)

-- No counter of the line is behind the process's.
pub record GoesOn (p : Process ℤ) (line : TaskLine) : Type 0 where
  pub cpu : p.last_cpu_ns ≤ℤ line.cpu_ns
  pub blkio : p.last_blkio_delay_ns ≤ℤ line.blkio_delay_ns
  pub swapin : p.last_swapin_delay_ns ≤ℤ line.swapin_delay_ns

-- The lines about one process, each with its time, one after the other.
unfoldable pub take_samples : Process ℤ → List (ℤ × TaskLine) → Process ℤ
take_samples p [] = p
take_samples p ((time, line) ∷ rest) = take_samples (take_sample time line p) rest

abbrev pub AllGoOn : Process ℤ → List (ℤ × TaskLine) → Type 0
AllGoOn p [] = Unit
AllGoOn p ((time, line) ∷ rest) = GoesOn p line × AllGoOn (take_sample time line p) rest

-- What a process has taken of its counters: the samples' sum is as far ahead of another process
-- state's as the counter.
pub record Accounts (p q : Process ℤ) : Type 0 where
  pub cpu : cpu_total q.samples +ℤ p.last_cpu_ns ≡ cpu_total p.samples +ℤ q.last_cpu_ns
  pub io : io_total q.samples +ℤ p.last_blkio_delay_ns ≡ io_total p.samples +ℤ q.last_blkio_delay_ns

take_sample-Accounts :
    (time : ℤ) (line : TaskLine) (p : Process ℤ)
    → GoesOn p line
    → Accounts p (take_sample time line p)
unfolding take_sample
take_sample-Accounts time line p g =
    let sample = sample_of time line p in
    elim (Bool-cases (ltb_ℤ (pos 0) (advance sample.cpu_sample))) [
      | inl e ↦ rw e (record {
        cpu = omega (int_laws, parts_of_eq (cpu_total-append p.samples sample));
        io = omega (int_laws, parts_of_eq (io_total-append p.samples sample));
      })
      | inr e ↦
          let idle = ltb_ℤ→ge (pos 0) (advance sample.cpu_sample) e in
          rw e (record { cpu = omega int_laws; io = omega int_laws })
    ]

-- As long as no counter falls behind, the samples of a process add up to the time that its counters
-- have advanced by, both on a CPU and in waiting for a disk: no nanosecond is lost or counted twice.
pub take_samples-Accounts :
    (p : Process ℤ) (lines : List (ℤ × TaskLine))
    → AllGoOn p lines
    → Accounts p (take_samples p lines)
unfolding take_samples
take_samples-Accounts p [] h = record { cpu = refl; io = refl }
take_samples-Accounts p ((time, line) ∷ rest) h =
    let first = take_sample-Accounts time line p h.0 in
    let later = take_samples-Accounts (take_sample time line p) rest h.1 in
    record {
      cpu = omega (int_laws, parts_of_eq first.cpu, parts_of_eq later.cpu);
      io = omega (int_laws, parts_of_eq first.io, parts_of_eq later.io);
    }
