-- ===== src/Tree/Init.antt =====
-- ProcessTree.__init__ as a whole: the process list, the lists of `build`, the forest that they
-- describe, and the passes over it.
pub mod Settle
pub mod Laws
use bootchart.Prelude.{ℕ, zero, suc, Bool, Option, none, some, List, [], ◌++◌, Text, if◌then◌else◌}
use bootchart.Prelude.Int.{ℤ}
use bootchart.Prelude.Sort.{sort_by}
use bootchart.Prelude.Results.{Result, ok, err, or_raise, type_error, recursion_error, ◌>>=◌}
use bootchart.Samples.{Process}
use bootchart.Tree.Forest.{Forest}
use bootchart.Tree.Build.{Lists, empty_lists, build, update_ppids_for_daemons, forest_of}
use bootchart.Tree.Prune.{Window}
use bootchart.Tree.Arrange.{ProcessTree, window, arrange}

-- The arguments of ProcessTree.__init__ that decide what it does.
pub record Settings : Type 0 where
  pub sample_period : ℤ
  pub monitored_app : Option Text
  pub prune : Bool
  pub accurate_parentage : Bool
  pub for_testing : Bool

-- The object as it is left: early where it is `for_testing`, with the times of the built tree, or
-- arranged.
pub data Planted (V : Type 0) : Type 0 where
  built : Window → Forest V → Planted V
  arranged : ProcessTree V → Planted V

module _ {V : Type 0} where
  -- `process_list` as it is collected; `sorted(None)` raises a TypeError.
  unfoldable pub collect :
      Option (List (Process V)) → Option (List (Process V)) → Result (List (Process V))
  collect none none = err type_error
  collect (some kernel) none = ok kernel
  collect none (some values) = ok values
  collect (some kernel) (some values) = ok (kernel ++ values)

  -- `self.process_list`
  unfoldable pub process_list :
      Option (List (Process V)) → Option (List (Process V)) → Result (List (Process V))
  unfolding collect
  process_list kernel values = do
    processes ← collect kernel values
    ok (sort_by (λ (p : Process V). p.pid) processes)

  -- `build`, and the hack for daemons where the parents are guesses.
  unfoldable pub settle : ℕ → Bool → List (Process V) → Option (List (Process V) × Lists)
  unfolding build update_ppids_for_daemons
  settle depth accurate procs =
      let l : Lists = build empty_lists procs in
      if accurate then some (procs, l) else update_ppids_for_daemons depth procs l

  -- From the process list on; `depth` bounds the levels of the tree, which Python's stack bounds too.
  unfoldable pub plant : ℕ → Settings → List (Process V) → Result (Planted V)
  unfolding settle forest_of window arrange
  plant depth settings procs = do
    (procs', l) ← or_raise recursion_error (settle depth settings.accurate_parentage procs)
    f ← or_raise recursion_error (forest_of depth procs' l l.process_tree)
    (if settings.for_testing then ok (built (window settings.sample_period f) f) else (do
      t ←
          or_raise recursion_error
            (arrange settings.sample_period settings.monitored_app settings.prune f)
      ok (arranged t)))

  -- ProcessTree.__init__
  unfoldable pub init :
      ℕ → Settings → Option (List (Process V)) → Option (List (Process V)) → Result (Planted V)
  unfolding process_list plant
  init depth settings kernel values = do
    procs ← process_list kernel values
    plant depth settings procs
