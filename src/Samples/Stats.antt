-- ===== src/Samples/Stats.antt =====
-- Process.calc_stats and set_parent.
pub mod Laws
use bootchart.Prelude.{
  ℕ, zero, suc, ◌+◌, Bool, Option, none, some, List, [], ◌∷◌, codes, text_eq, ltb, if◌then◌else◌,
  ◌||◌,
}
use bootchart.Prelude.Int.{ℤ, pos, ◌+ℤ◌, ◌-ℤ◌, min_ℤ, ltb_ℤ}
use bootchart.Prelude.Dict.{Dict, int_key, get}
use bootchart.Samples.{Process, ProcessSample, CpuSample}

-- The shares of a CPU sample, as `calc_stats` uses them.
pub record Load (V : Type 0) : Type 0 where
  pub add : V → V → V
  -- x > 0.0
  pub is_positive : V → Bool

instance abbrev pub ns_load : Load ℤ
ns_load = record { add = ◌+ℤ◌; is_positive = λ x. ltb_ℤ (pos 0) x }

module _ {V : Type 0} ⦃load : Load V⦄ where
  -- `sample.cpu_sample.sys + sample.cpu_sample.user + sample.cpu_sample.io > 0.0`
  unfoldable pub is_busy : ProcessSample V → Bool
  is_busy s =
      load.is_positive (load.add (load.add s.cpu_sample.sys s.cpu_sample.user) s.cpu_sample.io)

  unfoldable pub count_if : (ProcessSample V → Bool) → List (ProcessSample V) → ℕ
  count_if test [] = 0
  count_if test (s ∷ ss) = (if test s then 1 else 0) + count_if test ss

  -- A busy sample counts once, a sample in state 'D' once more.
  unfoldable pub active_count : List (ProcessSample V) → ℕ
  unfolding count_if is_busy
  active_count samples =
      count_if is_busy samples + count_if (λ s. text_eq s.state (codes "D")) samples

  -- samples[-1].time, behind a first sample
  unfoldable pub last_sample_time : ℤ → List (ProcessSample V) → ℤ
  last_sample_time time [] = time
  last_sample_time time (s ∷ ss) = last_sample_time s.time ss

  unfoldable pub calc_times : ℤ → List (ProcessSample V) → Process V → Process V
  unfolding last_sample_time
  calc_times sample_period [] p = p
  calc_times sample_period (first ∷ rest) p =
      let start : ℤ = min_ℤ first.time p.start_time in
      record p {
        start_time = start;
        duration = last_sample_time first.time rest -ℤ start +ℤ sample_period;
      }

  unfoldable pub calc_stats : ℤ → Process V → Process V
  unfolding calc_times active_count
  calc_stats sample_period p =
      let timed : Process V = calc_times sample_period p.samples p in
      record timed { active = some (ltb 2 (active_count p.samples)) }

module _ {V : Type 0} where
  -- `self.parent = processMap.get(self.ppid)`: the parent object, which its own pid names. (A warning is printed
  -- for a missing parent, which is not modelled.)
  unfoldable pub set_parent : Dict ℤ (Process V) → Process V → Process V
  set_parent map p = record p {
    parent = elim (get map p.ppid) [ none ↦ none | some q ↦ some q.pid ];
  }
