-- ===== src/Parse/ProcStat/Laws.antt =====
-- The shares of a CPU sample.
use bootchart.Prelude.{◌<◌, ◌≡◌, refl, some, arith}
use bootchart.Prelude.Int.{
  ℤ, pos, negsuc, ◌+ℤ◌, ◌-ℤ◌, ◌≤ℤ◌, max_ℤ, max_ℤ-ge_left, max_ℤ-ge_right, int_laws,
}
use bootchart.Prelude.Ratio.{Ratio, ratio}
use bootchart.Samples.{CpuSample}
use bootchart.Parse.ProcStat.{Times, cpu_sample}

-- No time of the later reading is behind.
pub record Advances (l t : Times) : Type 0 where
  pub user : l.user ≤ℤ t.user
  pub nice : l.nice ≤ℤ t.nice
  pub system : l.system ≤ℤ t.system
  pub idle : l.idle ≤ℤ t.idle
  pub io_wait : l.io_wait ≤ℤ t.io_wait
  pub irq : l.irq ≤ℤ t.irq
  pub softirq : l.softirq ≤ℤ t.softirq

-- Three shares of one whole: over one positive denominator, none negative, in sum at most 1.
pub record AreShares (s : CpuSample Ratio) : Type 0 where
  pub sys_den : s.sys.den ≡ s.user.den
  pub io_den : s.io.den ≡ s.user.den
  pub positive : 0 < s.user.den
  pub user : pos 0 ≤ℤ s.user.num
  pub sys : pos 0 ≤ℤ s.sys.num
  pub io : pos 0 ≤ℤ s.io.num
  pub whole : s.user.num +ℤ s.sys.num +ℤ s.io.num ≤ℤ pos s.user.den

-- Fractions with one denominator, put together.
shares_of :
    (time user system iowait sum : ℤ)
    → pos 1 ≤ℤ sum
    → pos 0 ≤ℤ user
    → pos 0 ≤ℤ system
    → pos 0 ≤ℤ iowait
    → user +ℤ system +ℤ iowait ≤ℤ sum
    → AreShares (record {
      time = some time;
      user = ratio user sum;
      sys = ratio system sum;
      io = ratio iowait sum;
      swap = ratio (pos 0) (pos 1);
    })
unfolding ratio
shares_of time user system iowait (pos d) h u s i w = record {
  sys_den = refl;
  io_den = refl;
  positive = omega arith;
  user = u;
  sys = s;
  io = i;
  whole = w;
}
shares_of time user system iowait (negsuc d) h u s i w = absurd (omega arith)

-- Where no counter falls behind, the user, system and waiting shares of a sample are none of them
-- negative, and make up at most the whole.
pub cpu_sample-AreShares : (time : ℤ) (l t : Times) → Advances l t → AreShares (cpu_sample time l t)
unfolding cpu_sample
cpu_sample-AreShares time l t a =
    let user = (t.user +ℤ t.nice) -ℤ (l.user +ℤ l.nice) in
    let system = (t.system +ℤ t.irq +ℤ t.softirq) -ℤ (l.system +ℤ l.irq +ℤ l.softirq) in
    let idle = t.idle -ℤ l.idle in
    let iowait = t.io_wait -ℤ l.io_wait in
    let all = user +ℤ system +ℤ idle +ℤ iowait in
    let bound = max_ℤ-ge_left all (pos 1) in
    shares_of time user system iowait (max_ℤ all (pos 1)) (max_ℤ-ge_right all (pos 1))
      (omega (int_laws, a.user, a.nice)) (omega (int_laws, a.system, a.irq, a.softirq))
      (omega (int_laws, a.io_wait)) (omega (int_laws, a.idle))
