-- ===== src/Tree/Build.antt =====
-- ProcessTree.build and update_ppids_for_daemons: the processes refer to their parents, and each is
-- put in the child list of its parent or among the roots. An object is named by its pid.
pub mod Laws
pub mod Forests
pub mod Daemons
pub mod Counts
pub mod Complete
pub mod Permutes
use bootchart.Prelude.{
  ℕ, zero, suc, Bool, Option, none, some, List, [], ◌∷◌, ◌++◌, map, ◌&&◌, not, codes, text_eq,
  if◌then◌else◌, ◌>>=◌,
}
use bootchart.Prelude.Int.{ℤ, pos, negsuc, eqb_ℤ, ltb_ℤ, floor_div}
use bootchart.Samples.{Process}
use bootchart.Tree.Forest.{Forest, nil, node, get_max_pid}

-- `process_tree` and every object's `child_list`, as lists of pids.
pub record Lists : Type 0 where
  pub process_tree : List ℤ
  pub child_list : ℤ → List ℤ

abbrev pub empty_lists : Lists
empty_lists = record { process_tree = []; child_list = λ k. [] }

module _ {V : Type 0} where
  -- One round of the loop of `build`.
  unfoldable pub place : Lists → Process V → Lists
  place l p = elim p.parent [
    | none ↦ record l { process_tree = l.process_tree ++ p.pid ∷ [] }
    | some k ↦ record l {
      child_list = λ j. if eqb_ℤ k j then l.child_list j ++ p.pid ∷ [] else l.child_list j;
    }
  ]

  unfoldable pub place_all : Lists → List (Process V) → Lists
  unfolding place
  place_all l [] = l
  place_all l (p ∷ ps) = place_all (place l p) ps

  -- `build`: the roots start anew, the child lists are extended.
  unfoldable pub build : Lists → List (Process V) → Lists
  unfolding place_all
  build l procs = place_all (record l { process_tree = [] }) procs

  unfoldable pub find_process : ℤ → List (Process V) → Option (Process V)
  find_process k [] = none
  find_process k (p ∷ ps) = if eqb_ℤ p.pid k then some p else find_process k ps

  -- The forest that the lists describe below some pids, of at most `depth` levels; `none` where it
  -- is deeper, as it is where the parents go round in a circle.
  unfoldable pub forest_of : ℕ → List (Process V) → Lists → List ℤ → Option (Forest V)
  unfolding find_process
  forest_of zero procs l [] = some nil
  forest_of zero procs l (k ∷ ks) = none
  forest_of (suc depth) procs l [] = some nil
  forest_of (suc depth) procs l (k ∷ ks) = do
    p ← find_process k procs
    c ← forest_of depth procs l (l.child_list k)
    r ← forest_of (suc depth) procs l ks
    some (node p c r)

  -- `p.ppid // 1000 == 1`
  unfoldable pub has_init_parent : Process V → Bool
  has_init_parent p = eqb_ℤ (floor_div p.ppid 1000) (pos 1)

  -- The first loop: the last process `rc` under init.
  unfoldable pub find_rc : Option (Process V) → List (Process V) → Option (Process V)
  find_rc found [] = found
  find_rc found (p ∷ ps) =
      find_rc (if text_eq p.cmd (codes "rc") && has_init_parent p then some p else found) ps

  -- The second loop on one process.
  unfoldable pub adopt : Process V → ℤ → Process V → Process V
  adopt rc rcendpid p =
      if ltb_ℤ rc.pid p.pid && ltb_ℤ p.pid rcendpid && has_init_parent p
      then record p { ppid = rc.pid; parent = some rc.pid }
      else p

  -- The branch under `rcstartpid != -1 and rcendpid != -1`: new parents, empty lists, `build`.
  unfoldable pub rebuild : Process V → ℤ → List (Process V) → Lists → List (Process V) × Lists
  unfolding adopt build
  rebuild rc rcendpid procs l =
      if not (eqb_ℤ rc.pid (negsuc 0)) && not (eqb_ℤ rcendpid (negsuc 0))
      then (let procs' : List (Process V) = map (adopt rc rcendpid) procs in
          (procs', build empty_lists procs'))
      else (procs, l)

  -- update_ppids_for_daemons; `depth` bounds the levels below rc.
  unfoldable pub update_ppids_for_daemons :
      ℕ → List (Process V) → Lists → Option (List (Process V) × Lists)
  unfolding find_rc rebuild forest_of
  update_ppids_for_daemons depth procs l = elim (find_rc none procs) [
    | none ↦ some (procs, l)
    | some rc ↦ do
      below ← forest_of depth procs l (l.child_list rc.pid)
      some (rebuild rc (get_max_pid below) procs l)
  ]
