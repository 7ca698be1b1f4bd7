-- ===== src/Tree/Runs/Laws.antt =====
-- What `merge_runs` does to a tree.
use bootchart.Prelude.{
  ℕ, zero, suc, ◌+◌, ◌<◌, ◌≡◌, ◌≢◌, refl, sym, ap, ◌∙◌, inl, inr, none, some, List, [], ◌∷◌, Text,
  text_eq_iff, Option-cases, arith,
}
use bootchart.Samples.{Process, merge_processes}
use bootchart.Tree.Forest.{Forest, nil, node, num_nodes, num_nodes-node}
use bootchart.Tree.Merges.{Merges, Merges-refl, Merges-trans, Merges-node, Merges-run}
use bootchart.Tree.Runs.{run_child, merge_runs}

module _ {V : Type 0} where
  -- The command lines of the processes of a list.
  unfoldable pub cmds : Forest V → List Text
  cmds nil = []
  cmds (node p c r) = p.cmd ∷ cmds r

  -- No process, at any level, has a single child of its own command line.
  abbrev pub HasNoRuns : Forest V → Type 0
  HasNoRuns nil = Unit
  HasNoRuns (node p c r) = (cmds c ≢ p.cmd ∷ []) × HasNoRuns c × HasNoRuns r

  cmds-run_child : (p : Process V) (c : Forest V) → run_child p c ≡ none → cmds c ≢ p.cmd ∷ []
  unfolding run_child cmds
  cmds-run_child p nil h e = cc
  cmds-run_child p (node q d nil) h e = ground (arith, text_eq_iff q.cmd p.cmd)
  cmds-run_child p (node q d (node s x t)) h e = cc

  -- A run is a single child.
  run_child-some :
      (p : Process V) (c : Forest V) (q : Process V) (d : Forest V)
      → run_child p c ≡ some (q, d)
      → c ≡ node q d nil
  unfolding run_child
  run_child-some p nil q d h = cc
  run_child-some p (node q' d' nil) q d h = ground arith
  run_child-some p (node q' d' (node s x t)) q d h = cc

  cmds-node :
      (p : Process V) (c c' r r' : Forest V)
      → cmds r' ≡ cmds r
      → cmds (node p c' r') ≡ cmds (node p c r)
  unfolding cmds
  cmds-node p c c' r r' h = ap (◌∷◌ p.cmd) h

  cmds-run :
      (p q : Process V) (d c r : Forest V)
      → cmds (node (merge_processes p q) d r) ≡ cmds (node p c r)
  unfolding cmds merge_processes
  cmds-run p q d c r = refl

  run_size :
      (p q : Process V) (d r : Forest V)
      → num_nodes (node p (node q d nil) r) ≡ num_nodes (node (merge_processes p q) d r) + 1
  run_size p q d r = (Merges-run p q d r).counted

  -- `merge_runs` returns when it has more fuel than there are processes. The result has no process
  -- with a single child of the same command line. The samples, the earliest start, the latest end and
  -- the command lines of the list itself are as before, and the count is the number of processes gone.
  pub merge_runs-Merges :
      (n : ℕ) (f : Forest V)
      → num_nodes f < n
      → (out : Forest V × ℕ) × (merge_runs n f ≡ some out)
        × Merges f out.0 out.1
        × HasNoRuns out.0
        × (cmds out.0 ≡ cmds f)
  unfolding merge_runs
  merge_runs-Merges zero f lt = elim lt [ ]
  merge_runs-Merges (suc n) nil lt = ((nil, 0), refl, Merges-refl nil, tt, refl)
  merge_runs-Merges (suc n) (node p c r) lt = elim (Option-cases (run_child p c)) [
    | inl e ↦
        let ((c', k), run, m, t, s) = merge_runs-Merges n c (omega (arith, num_nodes-node p c r)) in
        let ((r', j), run', m', t', s') =
          merge_runs-Merges n r (omega (arith, num_nodes-node p c r)) in
        (
          (node p c' r', k + j),
          rw (e, merge_runs, run, run') refl,
          Merges-node p m m',
          ((λ h. cmds-run_child p c e (sym s ∙ h)), t, t'),
          cmds-node p c c' r r' s',
        )
    | inr ((q, d), e) ↦
        let single = run_child-some p c q d e in
        let ((f, j), run, m, t, s) =
          merge_runs-Merges n (node (merge_processes p q) d r)
            (omega (arith, run_size p q d r, ap (λ x. num_nodes (node p x r)) single)) in
        (
          (f, 1 + j),
          rw (e, merge_runs, run) refl,
          Merges-trans (rw single (Merges-run p q d r)) m,
          t,
          s ∙ cmds-run p q d c r,
        )
  ]
