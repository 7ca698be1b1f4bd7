-- ===== src/Tree/Build/Daemons.antt =====
-- What `update_ppids_for_daemons` keeps of the lists that `build` has made.
use bootchart.Prelude.{
  ℕ, ◌≤◌, ◌≡◌, refl, ◌⊎◌, inl, inr, not, ◌&&◌, none, some, List, map, Bool-cases, Option-cases,
}
use bootchart.Prelude.Int.{ℤ, pos, negsuc, eqb_ℤ}
use bootchart.Samples.{Process}
use bootchart.Tree.Forest.{get_max_pid}
use bootchart.Tree.Build.{
  Lists, empty_lists, build, adopt, rebuild, find_rc, update_ppids_for_daemons,
}
use bootchart.Tree.Build.Laws.{build-lists}
use bootchart.Tree.Build.Forests.{IsBuilt, AllRanked, AllBelow-children, forest_of_total}

module _ {V : Type 0} where
  pub build-IsBuilt : (procs : List (Process V)) → IsBuilt procs (build empty_lists procs)
  build-IsBuilt procs = record {
    rooted = (build-lists empty_lists procs (pos 0)).0;
    parented = λ k. (build-lists empty_lists procs k).1;
  }

  rebuild-IsBuilt :
      (rc : Process V) (rcendpid : ℤ) (procs : List (Process V)) (l : Lists)
      → IsBuilt procs l
      → IsBuilt (rebuild rc rcendpid procs l).0 (rebuild rc rcendpid procs l).1
  unfolding rebuild
  rebuild-IsBuilt rc rcendpid procs l h =
      elim (Bool-cases (not (eqb_ℤ rc.pid (negsuc 0)) && not (eqb_ℤ rcendpid (negsuc 0)))) [
        | inl e ↦ rw e (build-IsBuilt (map (adopt rc rcendpid) procs))
        | inr e ↦ rw e h
      ]

  -- The processes are as they were, or a process `rc` under init has adopted some of them.
  abbrev pub IsSettled : List (Process V) → List (Process V) → Type 0
  IsSettled procs out =
      (out ≡ procs)
      ⊎ ((rc : Process V) × (rcendpid : ℤ) × (find_rc none procs ≡ some rc)
          × (out ≡ map (adopt rc rcendpid) procs))

  rebuild-IsSettled :
      (rc : Process V) (rcendpid : ℤ) (procs : List (Process V)) (l : Lists)
      → find_rc none procs ≡ some rc
      → IsSettled procs (rebuild rc rcendpid procs l).0
  unfolding rebuild
  rebuild-IsSettled rc rcendpid procs l found =
      elim (Bool-cases (not (eqb_ℤ rc.pid (negsuc 0)) && not (eqb_ℤ rcendpid (negsuc 0)))) [
        | inl e ↦ rw e (inr (rc, rcendpid, found, refl))
        | inr e ↦ rw e (inl refl)
      ]

  pub update_ppids_for_daemons-IsSettled :
      (rank : ℤ → ℕ) (depth : ℕ) (procs : List (Process V)) (l : Lists)
      → AllRanked rank procs
      → ((pid : ℤ) → rank pid ≤ depth)
      → IsBuilt procs l
      → (out : List (Process V) × Lists) × (update_ppids_for_daemons depth procs l ≡ some out)
        × IsBuilt out.0 out.1
        × IsSettled procs out.0
  unfolding update_ppids_for_daemons
  update_ppids_for_daemons-IsSettled rank depth procs l ranked deep built =
      elim (Option-cases (find_rc none procs)) [
        | inl e ↦ ((procs, l), rw (update_ppids_for_daemons, e) refl, built, inl refl)
        | inr (rc, e) ↦
            let (below, run, fits) =
              forest_of_total rank depth (rank rc.pid) procs l (l.child_list rc.pid) ranked built
                (rw (built.parented rc.pid) (AllBelow-children rank rc.pid procs ranked))
                (deep rc.pid) in
            (
              rebuild rc (get_max_pid below) procs l,
              rw (update_ppids_for_daemons, e, run) refl,
              rebuild-IsBuilt rc (get_max_pid below) procs l built,
              rebuild-IsSettled rc (get_max_pid below) procs l e,
            )
      ]

  -- Where the parents do not go round in a circle, `update_ppids_for_daemons` returns, and the lists fit
  -- the parents that it has set, if they fitted the parents before.
  pub update_ppids_for_daemons-IsBuilt :
      (rank : ℤ → ℕ) (depth : ℕ) (procs : List (Process V)) (l : Lists)
      → AllRanked rank procs
      → ((pid : ℤ) → rank pid ≤ depth)
      → IsBuilt procs l
      → (out : List (Process V) × Lists) × (update_ppids_for_daemons depth procs l ≡ some out)
        × IsBuilt out.0 out.1
  update_ppids_for_daemons-IsBuilt rank depth procs l ranked deep built =
      let (out, run, fits, settled) =
        update_ppids_for_daemons-IsSettled rank depth procs l ranked deep built in
      (out, run, fits)
