-- ===== src/Trace/Compile.antt =====
-- Trace.compile: command lines, parents and statistics of the processes of a map.
pub mod Laws
pub mod Parenting
pub mod Reparents
use bootchart.Prelude.{ℕ, Option, none, some, List, Text, if◌then◌else◌, ◌>>=◌}
use bootchart.Prelude.Int.{ℤ, pos, ◌*ℤ◌, eqb_ℤ, floor_div}
use bootchart.Prelude.Dict.{Dict, int_key, get, map_values, try_map_values}
use bootchart.Samples.{Process}
use bootchart.Samples.Stats.{Load, calc_stats, set_parent}
use bootchart.Trace.Parents.{find_parent_id_for}

-- The values of the cmdline log.
pub record CmdLine : Type 0 where
  pub exe : Text
  pub args : List Text

module _ {V : Type 0} where
  -- `int (proc.pid // 1000)`
  unfoldable pub real_pid : Process V → ℤ
  real_pid p = floor_div p.pid 1000

  unfoldable pub merge_cmdline : Dict ℤ CmdLine → Process V → Process V
  unfolding real_pid
  merge_cmdline cmdline p = elim (get cmdline (real_pid p)) [
    | none ↦ p
    | some c ↦ record p { exe = c.exe; args = c.args }
  ]

  -- `if ppid: process.ppid = ppid * 1000`
  unfoldable pub set_ppid : Process V → ℤ → Process V
  set_ppid p ppid = if eqb_ℤ ppid (pos 0) then p else record p { ppid = ppid *ℤ pos 1000 }

  unfoldable pub reparent : ℕ → Dict ℤ ℤ → Dict ℤ (Process V) → Process V → Option (Process V)
  unfolding set_ppid real_pid
  reparent depth parent_map process_map p = do
    ppid ← find_parent_id_for parent_map process_map depth (real_pid p)
    some (set_ppid p ppid)

  -- The two parts under `if self.cmdline is not None` and `if self.parent_map is not None`.
  unfoldable pub merge_cmdlines : Option (Dict ℤ CmdLine) → Dict ℤ (Process V) → Dict ℤ (Process V)
  unfolding merge_cmdline
  merge_cmdlines none map = map
  merge_cmdlines (some cmdline) map = map_values (merge_cmdline cmdline) map

  unfoldable pub reparent_all :
      ℕ → Option (Dict ℤ ℤ) → Dict ℤ (Process V) → Option (Dict ℤ (Process V))
  unfolding reparent
  reparent_all depth none map = some map
  reparent_all depth (some parent_map) map = try_map_values (reparent depth parent_map map) map

module _ {V : Type 0} ⦃load : Load V⦄ where
  -- `compile`; `depth` bounds the climb to a parent, and `none` is the error of a deeper one.
  unfoldable pub compile :
      ℕ
      → Option (Dict ℤ CmdLine)
      → Option (Dict ℤ ℤ)
      → ℤ
      → Dict ℤ (Process V)
      → Option (Dict ℤ (Process V))
  unfolding merge_cmdlines reparent_all
  compile depth cmdline parent_map sample_period map = do
    reparented ← reparent_all depth parent_map (merge_cmdlines cmdline map)
    some (map_values (calc_stats sample_period) (map_values (set_parent reparented) reparented))
