-- ===== src/Trace/Annotate.antt =====
-- The part of Trace.__init__ around the logs: the check that follows parse_paths, the times of the
-- annotations, and the tree of the kernel's own processes.
pub mod Laws
use bootchart.Prelude.{
  ℕ, Bool, true, false, Option, none, some, List, [], ◌∷◌, ◌++◌, Text, codes, if◌then◌else◌,
}
use bootchart.Prelude.Int.{ℤ, pos}
use bootchart.Prelude.Dict.{Dict, get, text_key}
use bootchart.Prelude.Results.{Result, ok, err, parse_error, ◌>>=◌}
use bootchart.Samples.{Process}
use bootchart.Parse.Pacct.{Version}
use bootchart.Parse.Files.{FileSystem, TraceState, no_trace, parse_paths, valid}
use bootchart.Trace.Crop.{is_named, crop_names}
use bootchart.Tree.Init.{Settings, Planted, init}

-- parse_paths on an empty trace, which has to be valid then.
unfoldable pub read_trace : Version → FileSystem → ℕ → List Text → Result TraceState
unfolding parse_paths valid
read_trace v fs depth paths = do
  trace ← parse_paths v fs depth no_trace paths
  (if valid trace then ok trace else err parse_error)

module _ {V : Type 0} where
  -- The loop over the processes for one list of names: the start of the first of them that has one of
  -- the names, and None for every process before it.
  unfoldable pub annotate_names : List Text → Dict ℤ (Process V) → List (Option ℤ)
  unfolding is_named
  annotate_names names [] = []
  annotate_names names ((k, p) ∷ map) =
      let later : List (Option ℤ) = annotate_names names map in
      if is_named p.cmd names then some p.start_time ∷ [] else none ∷ later

  -- `for procnames in options.annotate`
  unfoldable pub annotate_all : List Text → Dict ℤ (Process V) → List (Option ℤ)
  unfolding annotate_names crop_names
  annotate_all [] map = []
  annotate_all (procnames ∷ rest) map =
      annotate_names (crop_names procnames) map ++ annotate_all rest map

  -- self.times: the idle time, then the annotations.
  unfoldable pub times : Option ℤ → Option (List Text) → Dict ℤ (Process V) → List (Option ℤ)
  unfolding annotate_all
  times idle none map = idle ∷ []
  times idle (some annotate) map = idle ∷ annotate_all annotate map

-- The arguments of the tree of the kernel's processes.
unfoldable pub kernel_settings : Option Text → Settings
kernel_settings monitored_app = record {
  sample_period = pos 0;
  monitored_app = monitored_app;
  prune = false;
  accurate_parentage = true;
  for_testing = false;
}

-- self.kernel_tree, where there is a kernel log; `depth` bounds the levels of the tree.
unfoldable pub kernel_tree :
    {V : Type 0} → ℕ → Dict Text Text → Option (List (Process V)) → Result (Option (Planted V))
unfolding kernel_settings init
kernel_tree depth headers none = ok none
kernel_tree depth headers (some kernel) = do
  tree ← init depth (kernel_settings (get headers (codes "profile.process"))) (some kernel) none
  ok (some tree)
