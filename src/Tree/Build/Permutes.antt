-- ===== src/Tree/Build/Permutes.antt =====
-- The processes of the forest that `build` makes are those of the list.
use mathlib.Core.Path.{subst}
use mathlib.Core.List.Perm
use mathlib.Core.List.{Perm, filter_map}
use bootchart.Prelude.{
  ℕ, ◌≤◌, ◌++◌, [], ◌∷◌, arith, ◌≡◌, refl, sym, ap, ◌∙◌, inl, inr, none, some, List, map,
  Bool-cases, length, length-map,
}
use bootchart.Prelude.Int.{ℤ, eqb_ℤ, eqb_ℤ_iff}
use bootchart.Prelude.Tally.{perm_of_occ, length_of_occ}
use bootchart.Samples.{Process}
use bootchart.Tree.Forest.{Forest, nil, node, processes, num_nodes, length-processes}
use bootchart.Tree.Build.{find_process}
use bootchart.Tree.Build.Laws.{roots, children}
use bootchart.Tree.Build.Forests.{IsForestOf, nil_of, node_of, AllRanked}
use bootchart.Tree.Build.Counts.{AllDistinct, AllFound, pid_of}
use bootchart.Tree.Build.Complete.{occ-processes}

module _ {V : Type 0} where
  -- Every process of `qs` is the one that its pid finds.
  abbrev AllTheirs : List (Process V) → List (Process V) → Type 0
  AllTheirs procs [] = Unit
  AllTheirs procs (q ∷ qs) = (find_process q.pid procs ≡ some q) × AllTheirs procs qs

  AllTheirs-append :
      (procs xs ys : List (Process V))
      → AllTheirs procs xs
      → AllTheirs procs ys
      → AllTheirs procs (xs ++ ys)
  AllTheirs-append procs [] ys h k = k
  AllTheirs-append procs (x ∷ xs) ys h k = (h.0, AllTheirs-append procs xs ys h.1 k)

  processes-AllTheirs :
      (procs : List (Process V)) (f : Forest V) (ks : List ℤ)
      → IsForestOf procs f ks
      → AllTheirs procs (processes f)
  unfolding processes
  processes-AllTheirs procs nil [] nil_of = tt
  processes-AllTheirs procs nil (k ∷ ks) h = elim h [ ]
  processes-AllTheirs procs (node p c r) [] h = elim h [ ]
  processes-AllTheirs procs (node p c r) (k ∷ ks) (node_of found same below rest) = (
    subst (λ i. find_process i procs ≡ some p) (sym same) found,
    AllTheirs-append procs (processes c) (processes r)
        (processes-AllTheirs procs c (children k procs) below)
        (processes-AllTheirs procs r ks rest),
  )

  AllTheirs-cons :
      (p : Process V) (ps qs : List (Process V))
      → find_process p.pid ps ≡ none
      → AllTheirs ps qs
      → AllTheirs (p ∷ ps) qs
  unfolding find_process
  AllTheirs-cons p ps [] new h = tt
  AllTheirs-cons p ps (q ∷ qs) new h = elim (Bool-cases (eqb_ℤ p.pid q.pid)) [
    | inl e ↦
        let there : find_process q.pid ps ≡ none =
          subst (λ i. find_process i ps ≡ none) ((eqb_ℤ_iff p.pid q.pid).0 e) new in
        let odd : none ≡ some q = sym there ∙ h.0 in cc
    | inr e ↦ (rw e h.0, AllTheirs-cons p ps qs new h.1)
  ]

  AllDistinct-AllTheirs : (ps : List (Process V)) → AllDistinct ps → AllTheirs ps ps
  unfolding find_process
  AllDistinct-AllTheirs [] h = tt
  AllDistinct-AllTheirs (p ∷ ps) h = (
    rw ((eqb_ℤ_iff p.pid p.pid).1 refl) refl,
    AllTheirs-cons p ps ps h.0 (AllDistinct-AllTheirs ps h.1),
  )

  find_all :
      (procs qs : List (Process V))
      → AllTheirs procs qs
      → filter_map (λ k. find_process k procs) (map pid_of qs) ≡ qs
  unfolding filter_map pid_of
  find_all procs [] h = refl
  find_all procs (q ∷ qs) h = rw h.0 (ap (◌∷◌ q) (find_all procs qs h.1))

  -- Where no pid occurs twice, every parent is a process of the list, and the parents do not go round in
  -- a circle, the forest below the roots has every process of the list once.
  pub processes-perm :
      (rank : ℤ → ℕ) (depth : ℕ) (procs : List (Process V)) (f : Forest V)
      → AllDistinct procs
      → AllRanked rank procs
      → AllFound procs procs
      → ((pid : ℤ) → rank pid ≤ depth)
      → IsForestOf procs f (roots procs)
      → Perm (processes f) procs
  processes-perm rank depth procs f distinct ranked found deep fits =
      let same =
        perm_of_occ (map pid_of (processes f)) (map pid_of procs)
          (occ-processes rank depth procs f distinct ranked found deep fits) in
      let out = Perm.filter_map (λ k. find_process k procs) same in
      rw
        (
          find_all procs (processes f) (processes-AllTheirs procs f (roots procs) fits),
          find_all procs procs (AllDistinct-AllTheirs procs distinct),
        )
        at out

  pub num_nodes-length :
      (rank : ℤ → ℕ) (depth : ℕ) (procs : List (Process V)) (f : Forest V)
      → AllDistinct procs
      → AllRanked rank procs
      → AllFound procs procs
      → ((pid : ℤ) → rank pid ≤ depth)
      → IsForestOf procs f (roots procs)
      → num_nodes f ≡ length procs
  num_nodes-length rank depth procs f distinct ranked found deep fits =
      let same =
        length_of_occ (map pid_of (processes f)) (map pid_of procs)
          (occ-processes rank depth procs f distinct ranked found deep fits) in
      let size = length-map (processes f) pid_of in
      omega (arith, same, size, length-processes f, length-map procs pid_of)
