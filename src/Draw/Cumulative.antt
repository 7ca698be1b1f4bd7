-- ===== src/Draw/Cumulative.antt =====
-- draw_cuml_graph of draw.py, up to the layers: the processes of one command line together, the sample
-- times and the total. Shares are nanoseconds: the graph is drawn for taskstats only.
pub mod Laws
pub mod Layer
pub mod Graph
use bootchart.Prelude.{
  ℕ, Bool, true, ◌||◌, Option, none, some, List, [], ◌∷◌, ◌++◌, Text, codes, text_eq, if◌then◌else◌,
}
use bootchart.Prelude.Int.{ℤ, pos, ◌+ℤ◌}
use bootchart.Prelude.Dict.{Dict, int_key, text_key, get, put}
use bootchart.Prelude.Sort.{sort_by}
use bootchart.Samples.{Process, ProcessSample, CpuSample}

-- elide_bootchart
unfoldable pub elide_bootchart : Process ℤ → Bool
elide_bootchart p = text_eq p.cmd (codes "bootchartd") || text_eq p.cmd (codes "bootchart-colle")

pub data StatType : Type 0 where
  stat_cpu : StatType
  stat_io : StatType

-- `getattr(sample.cpu_sample, sample_value)`, where `cpu` is the sum of `user` and `sys`
unfoldable pub sample_value : StatType → ProcessSample ℤ → ℤ
sample_value stat_cpu s = s.cpu_sample.user +ℤ s.cpu_sample.sys
sample_value stat_io s = s.cpu_sample.io

-- class CumlSample, less its colour
pub record CumlSample : Type 0 where
  pub cmd : Text
  pub samples : List (ProcessSample ℤ)

-- CumlSample.merge_samples
unfoldable pub merge_samples : CumlSample → Process ℤ → CumlSample
merge_samples c p = record c {
  samples = sort_by (λ (s : ProcessSample ℤ). s.time) (c.samples ++ p.samples);
}

-- CumlSample.__init__
unfoldable pub new_cuml_sample : Process ℤ → CumlSample
unfolding merge_samples
new_cuml_sample p = merge_samples (record { cmd = p.cmd; samples = [] }) p

-- The variables of the first loop.
pub record Groups : Type 0 where
  pub total_time : ℤ
  pub time_hash : Dict ℤ ℕ
  pub m_proc_list : Dict Text CumlSample

abbrev pub no_groups : Groups
no_groups = record { total_time = pos 0; time_hash = []; m_proc_list = [] }

unfoldable pub add_samples : StatType → Groups → List (ProcessSample ℤ) → Groups
unfolding sample_value
add_samples stat g [] = g
add_samples stat g (s ∷ ss) =
    add_samples stat
      (record g {
        total_time = g.total_time +ℤ sample_value stat s;
        time_hash = put g.time_hash s.time 1;
      })
      ss

-- The group of the command line, with the process in it.
unfoldable pub grouped : Dict Text CumlSample → Process ℤ → CumlSample
unfolding merge_samples new_cuml_sample
grouped groups p = elim (get groups p.cmd) [ none ↦ new_cuml_sample p | some c ↦ merge_samples c p ]

unfoldable pub add_to_group : Groups → Process ℤ → Groups
unfolding grouped
add_to_group g p = record g { m_proc_list = put g.m_proc_list p.cmd (grouped g.m_proc_list p) }

unfoldable pub add_proc : StatType → Groups → Process ℤ → Groups
unfolding elide_bootchart add_samples add_to_group
add_proc stat g p = if elide_bootchart p then g else add_to_group (add_samples stat g p.samples) p

unfoldable pub group_processes : StatType → Groups → List (Process ℤ) → Groups
unfolding add_proc
group_processes stat g [] = g
group_processes stat g (p ∷ ps) = group_processes stat (add_proc stat g p) ps
