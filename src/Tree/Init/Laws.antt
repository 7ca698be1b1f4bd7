-- ===== src/Tree/Init/Laws.antt =====
-- ProcessTree.__init__ from the lists of processes to the tree that is drawn.
use mathlib.Core.Path.{subst}
use mathlib.Core.List.{Perm}
use bootchart.Prelude.{
  ℕ, ◌+◌, ◌<◌, ◌≤◌, ◌≡◌, refl, sym, ap, ◌∙◌, inl, inr, Bool, true, false, Bool-cases, arith, Option,
  List, length, length-map,
}
use bootchart.Prelude.Int.{ℤ}
use bootchart.Prelude.Results.{ok}
use bootchart.Samples.{Process}
use bootchart.Tree.Forest.{Forest, processes}
use bootchart.Tree.Sort.Laws.{HasSortedChildren}
use bootchart.Tree.Build.{adopt}
use bootchart.Tree.Build.Laws.{roots}
use bootchart.Tree.Build.Forests.{IsForestOf, AllBelow, AllBelow-roots, forest_of_total}
use bootchart.Tree.Build.Daemons.{IsSettled}
use bootchart.Tree.Build.Permutes.{processes-perm, num_nodes-length}
use bootchart.Tree.Arrange.{window}
use bootchart.Tree.Arrange.Laws.{reported, arrange_total}
use bootchart.Tree.Init.{Settings, Planted, built, arranged, process_list, plant, init}
use bootchart.Tree.Init.Settle.{IsOrderly, settle-IsReady}

module _ {V : Type 0} where
  -- What is left of the forest `f`: itself in a test, or else a tree whose child lists ascend by pid,
  -- with at most its processes.
  abbrev pub IsPlanted : Bool → Forest V → ℕ → Planted V → Type 0
  IsPlanted for_testing f n (built w g) = (for_testing ≡ true) × (g ≡ f)
  IsPlanted for_testing f n (arranged t) =
      (for_testing ≡ false)
      × HasSortedChildren t.process_tree
      × (t.num_proc + reported t.counts ≤ n)

  length-IsSettled :
      (procs out : List (Process V)) → IsSettled procs out → length out ≡ length procs
  length-IsSettled procs out (inl e) = ap length e
  length-IsSettled procs out (inr (rc, n, there, e)) = ap length e ∙ length-map procs (adopt rc n)

  -- The settled list, which daemons may have been adopted in; a forest that has every process of it
  -- once, below its parent and in the order of the list; and what is left of this forest.
  pub record IsGrown (settings : Settings) (procs : List (Process V)) (t : Planted V) : Type 0 where
    pub settled : List (Process V)
    pub forest : Forest V
    pub adopted : IsSettled procs settled
    pub follows : IsForestOf settled forest (roots settled)
    pub once : Perm (processes forest) settled
    pub planted : IsPlanted settings.for_testing forest (length procs) t

  plant-IsGrown :
      (rank : ℤ → ℕ) (depth : ℕ) (settings : Settings) (procs : List (Process V))
      → IsOrderly rank procs
      → ((pid : ℤ) → rank pid < depth)
      → (t : Planted V) × (plant depth settings procs ≡ ok t) × IsGrown settings procs t
  unfolding plant
  plant-IsGrown rank depth settings procs h deep =
      let deep' : (pid : ℤ) → rank pid ≤ depth = λ pid. omega (arith, deep pid) in
      let ((out, l), run, fits, settled, ready) =
        settle-IsReady rank depth settings.accurate_parentage procs h deep' in
      let (f, run', follows) =
        forest_of_total rank depth depth out l l.process_tree ready.ranked fits
          (subst (AllBelow rank out depth) (sym fits.rooted) (AllBelow-roots rank depth out deep))
          (omega arith) in
      let follows' = subst (IsForestOf out f) fits.rooted follows in
      let once =
        processes-perm rank depth out f ready.distinct ready.ranked ready.found deep' follows' in
      let size =
        num_nodes-length rank depth out f ready.distinct ready.ranked ready.found deep' follows' in
      elim (Bool-cases settings.for_testing) [
        | inl e ↦ (
          built (window settings.sample_period f) f,
          rw (run, run', e) refl,
          record {
            settled = out;
            forest = f;
            adopted = settled;
            follows = follows';
            once = once;
            planted = (e, refl);
          },
        )
        | inr e ↦
            let (t, run'', sorted, counted) =
              arrange_total settings.sample_period settings.monitored_app settings.prune f in
            (
              arranged t,
              rw (run, run', e, run'') refl,
              record {
                settled = out;
                forest = f;
                adopted = settled;
                follows = follows';
                once = once;
                planted =
                    (e, sorted, omega (arith, counted, size, length-IsSettled procs out settled));
              },
            )
      ]

  -- Where no pid occurs twice, every parent is in the list, and some rank below `depth` ascends from
  -- every process to the parent that it has or may get by adoption, the tree is made without an
  -- exception. The forest that the passes start from has every process of the list once, below its
  -- parent, after the adoption of daemons; outside a test every child list of the final tree ascends
  -- by pid, and its processes and those reported as gone are at most those of the list.
  pub init-IsGrown :
      (rank : ℤ → ℕ) (depth : ℕ) (settings : Settings) (kernel values : Option (List (Process V)))
      (procs : List (Process V))
      → process_list kernel values ≡ ok procs
      → IsOrderly rank procs
      → ((pid : ℤ) → rank pid < depth)
      → (t : Planted V) × (init depth settings kernel values ≡ ok t) × IsGrown settings procs t
  unfolding init
  init-IsGrown rank depth settings kernel values procs listed h deep =
      let (t, run, grown) = plant-IsGrown rank depth settings procs h deep in
      (t, rw (listed, run) refl, grown)
