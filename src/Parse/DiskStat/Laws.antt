-- ===== src/Parse/DiskStat/Laws.antt =====
-- The utilisation of the disks is a share.
use mathlib.Core.Path.{subst}
use bootchart.Prelude.{ℕ, ◌≡◌, ◌≤◌, inl, inr, List, [], ◌∷◌, Text, Bool-cases, arith}
use bootchart.Prelude.Int.{pos, ◌-ℤ◌, ◌≤ℤ◌, ltb_ℤ→ge, ltb_ℤ→lt}
use bootchart.Prelude.Ratio.{Ratio, ratio, is_positive, exceeds_one}
use bootchart.Prelude.Results.{ok, >>=-eq-ok, ok-injective}
use bootchart.Parse.Blocks.{parse_timed_blocks}
use bootchart.Parse.DiskStat.{
  DiskStatSample, DiskSample, clamp, divide_by, interval_of, disk_sample, disk_samples,
  disk_stat_samples, parse_proc_disk_stat_log,
}

-- A number between 0 and 1, over a positive denominator.
pub record IsShare (r : Ratio) : Type 0 where
  pub low : pos 0 ≤ℤ r.num
  pub high : r.num ≤ℤ pos r.den
  pub whole : 1 ≤ r.den

clamp-IsShare : (r : Ratio) → IsShare (clamp r)
unfolding clamp is_positive exceeds_one
clamp-IsShare r = elim (Bool-cases (exceeds_one r)) [
  | inl e ↦ rw e (record { low = omega arith; high = omega arith; whole = omega arith })
  | inr e ↦ elim (Bool-cases (is_positive r)) [
    | inl p ↦
        let above = ltb_ℤ→lt (pos 0) r.num p in
        let below = ltb_ℤ→ge (pos r.den) r.num e in
        rw (e, p) (record { low = omega arith; high = below; whole = omega arith })
    | inr p ↦ rw (e, p) (record { low = omega arith; high = omega arith; whole = omega arith })
  ]
]

abbrev pub AllUtilShares : List DiskSample → Type 0
AllUtilShares [] = Unit
AllUtilShares (d ∷ ds) = IsShare d.util × AllUtilShares ds

disk_samples-AllUtilShares :
    (num_cpu : ℕ) (samples : List DiskStatSample) → AllUtilShares (disk_samples num_cpu samples)
unfolding disk_samples disk_sample
disk_samples-AllUtilShares num_cpu [] = tt
disk_samples-AllUtilShares num_cpu (a ∷ []) = tt
disk_samples-AllUtilShares num_cpu (a ∷ b ∷ rest) = (
  clamp-IsShare
      (divide_by (divide_by (ratio (a.use_time -ℤ b.use_time) (interval_of a b)) 10) num_cpu),
  disk_samples-AllUtilShares num_cpu (b ∷ rest),
)

-- In every sample that the disk log yields, the utilisation lies between 0 and 1, whatever the
-- counters of the log do.
pub parse_proc_disk_stat_log-AllUtilShares :
    (num_cpu : ℕ) (text : Text) (samples : List DiskSample)
    → parse_proc_disk_stat_log num_cpu text ≡ ok samples
    → AllUtilShares samples
unfolding parse_proc_disk_stat_log
parse_proc_disk_stat_log-AllUtilShares num_cpu text samples h =
    let (blocks, cut, next) = >>=-eq-ok (parse_timed_blocks text) _ h in
    let (stats, read, last) = >>=-eq-ok (disk_stat_samples blocks) _ next in
    subst AllUtilShares (ok-injective last) (disk_samples-AllUtilShares num_cpu stats)
