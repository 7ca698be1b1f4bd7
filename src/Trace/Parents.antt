-- ===== src/Trace/Parents.antt =====
-- find_parent_id_for of Trace.compile: the nearest ancestor that has a process.
pub mod Laws
use bootchart.Prelude.{ℕ, zero, suc, Bool, Option, none, some, if◌then◌else◌}
use bootchart.Prelude.Int.{ℤ, pos, ◌*ℤ◌, eqb_ℤ}
use bootchart.Prelude.Dict.{Dict, int_key, get, contains}
use bootchart.Samples.{Process}

-- One step: the pid of the parent, 0 and a missing entry being no parent.
unfoldable pub parent_of : Dict ℤ ℤ → ℤ → Option ℤ
parent_of parent_map pid = elim (get parent_map pid) [
  | none ↦ none
  | some ppid ↦ if eqb_ℤ ppid (pos 0) then none else some ppid
]

module _ {V : Type 0} (parent_map : Dict ℤ ℤ) (process_map : Dict ℤ (Process V)) where
  -- `int (ppid * 1000) in self.ps_stats.process_map`
  unfoldable pub has_process : ℤ → Bool
  has_process ppid = contains process_map (ppid *ℤ pos 1000)

  -- The recursion on its depth; `none` where it is deeper, which is a RecursionError of the program.
  unfoldable pub find_parent_id_for : ℕ → ℤ → Option ℤ
  unfolding has_process parent_of
  find_parent_id_for zero pid = none
  find_parent_id_for (suc depth) pid =
      let climb : Option ℤ = elim (parent_of parent_map pid) [
        | none ↦ some (pos 0)
        | some ppid ↦
            let further : Option ℤ = find_parent_id_for depth ppid in
            if has_process ppid then some ppid else further
      ] in
      if eqb_ℤ pid (pos 0) then some (pos 0) else climb
