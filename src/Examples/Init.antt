-- ===== src/Examples/Init.antt =====
-- process_tree.py: a whole tree from a list of processes.
use bootchart.Prelude.{
  if◌then◌else◌, ℕ, ◌<◌, ◌≡◌, true, false, Option, none, some, List, [], ◌∷◌, Text, codes, arith,
}
use bootchart.Prelude.Int.{eqb_ℤ, ℤ, pos}
use bootchart.Samples.{Process, new_process}
use bootchart.Prelude.Sort.{sort_by}
use bootchart.Prelude.Int.{floor_div}
use bootchart.Prelude.Results.{ok}
use bootchart.Prelude.{refl, text_eq}
use mathlib.Core.Path.{subst}
use mathlib.Core.Option.{some_inj}
use bootchart.Tree.Build.{find_rc, has_init_parent, find_process}
use bootchart.Tree.Init.{Settings, Planted, process_list, init}
use bootchart.Tree.Init.Laws.{IsGrown, init-IsGrown}
use bootchart.Tree.Init.Settle.{IsOrderly, AllLower}

abbrev proc : ℕ → Text → Option ℤ → Process ℤ
unfolding new_process
proc pid cmd parent =
    let p : Process ℤ = new_process (pos pid) cmd (pos 1000) (pos 0) in
    record p { duration = pos 300; parent = parent }

abbrev rc : Process ℤ
unfolding new_process
rc = proc 4000 (codes "rc") (some (pos 1000))

-- The daemon between rc and its last child gets rc for its parent.
abbrev listed : List (Process ℤ)
unfolding new_process
listed =
    proc 1000 (codes "init") none
    ∷ rc
    ∷ proc 4200 (codes "cupsd") (some (pos 1000))
    ∷ proc 4500 (codes "sh") (some (pos 4000))
    ∷ []

abbrev rank : ℤ → ℕ
rank pid = if eqb_ℤ pid (pos 1000) then 3 else if eqb_ℤ pid (pos 4000) then 2 else 1

rank-small : (pid : ℤ) → rank pid < 4
rank-small pid = ground arith

listed-IsOrderly : IsOrderly rank listed
unfolding listed rc proc new_process find_process find_rc has_init_parent floor_div text_eq
listed-IsOrderly = record {
  distinct = (refl, (refl, (refl, (refl, tt))));
  ranked = (tt, (omega arith, (omega arith, (omega arith, tt))));
  found = (tt, ((_, refl), ((_, refl), ((_, refl), tt))));
  lower = λ r e.
      subst (λ x. AllLower rank x listed) ((some_inj {a = rc} {b = r}).0 e)
        (λ h k. cc, (λ h k. cc, (λ h k. omega arith, (λ h k. omega arith, tt))));
}

abbrev settings : Settings
settings = record {
  sample_period = pos 2;
  monitored_app = none;
  prune = true;
  accurate_parentage = false;
  for_testing = false;
}

init-IsGrown_example :
    (t : Planted ℤ) × (init 4 settings (some []) (some listed) ≡ ok t) × IsGrown settings listed t
unfolding process_list listed rc proc new_process sort_by
init-IsGrown_example =
    init-IsGrown rank 4 settings (some []) (some listed) listed refl listed-IsOrderly rank-small
