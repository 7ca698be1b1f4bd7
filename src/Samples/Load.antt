-- ===== src/Samples/Load.antt =====
-- Process.calc_load: the shares of the CPU since the last sample.
use bootchart.Prelude.{if◌then◌else◌}
use bootchart.Prelude.Int.{ℤ}
use bootchart.Prelude.Ratio.{Ratio, ratio, add_ratio, divide_ratio, is_positive, exceeds_one}
use bootchart.Samples.Stats.{Load}

instance abbrev pub ratio_load : Load Ratio
ratio_load = record { add = add_ratio; is_positive = is_positive }

-- From the ticks since the last sample and the interval; the two loads are normalised if they are
-- more than the whole.
unfoldable pub calc_load : ℤ → ℤ → ℤ → Ratio × Ratio
unfolding ratio add_ratio divide_ratio exceeds_one
calc_load user_ticks sys_ticks interval =
    let user : Ratio = ratio user_ticks interval in
    let sys : Ratio = ratio sys_ticks interval in
    let cpu : Ratio = add_ratio user sys in
    if exceeds_one cpu then (divide_ratio user cpu, divide_ratio sys cpu) else (user, sys)
