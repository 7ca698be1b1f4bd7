-- ===== src/Tree/Build/Counts.antt =====
-- How often a pid is among the roots, in a child list, and in a whole forest.
use mathlib.Core.Path.{subst}
use mathlib.Core.Option.{some_inj}
use mathlib.Core.List.{map-append}
use bootchart.Prelude.{
  true, false, ℕ, ◌+◌, [], ◌∷◌, arith, ◌≡◌, refl, ap, ◌∙◌, inl, inr, Option, none, some, List, map,
  Bool-cases, Option-cases, if◌then◌else◌,
}
use bootchart.Prelude.Int.{ℤ, eqb_ℤ, eqb_ℤ_iff}
use bootchart.Prelude.Tally.{tally, occ, occ-append}
use bootchart.Samples.{Process}
use bootchart.Tree.Forest.{Forest, nil, node, processes}
use bootchart.Tree.Build.{find_process}
use bootchart.Tree.Build.Laws.{own_root, own_child, roots, children}
use bootchart.Tree.Build.Forests.{IsForestOf, nil_of, node_of}

module _ {V : Type 0} where
  -- No pid occurs twice.
  abbrev pub AllDistinct : List (Process V) → Type 0
  AllDistinct [] = Unit
  AllDistinct (p ∷ ps) = (find_process p.pid ps ≡ none) × AllDistinct ps

  -- Every parent is a process of `procs`.
  abbrev pub IsFound : List (Process V) → Option ℤ → Type 0
  IsFound procs none = Unit
  IsFound procs (some k) = (q : Process V) × (find_process k procs ≡ some q)

  abbrev pub AllFound : List (Process V) → List (Process V) → Type 0
  AllFound procs [] = Unit
  AllFound procs (p ∷ ps) = IsFound procs p.parent × AllFound procs ps

  unfoldable pub pid_of : Process V → ℤ
  pid_of p = p.pid

  -- The sum of a number over all processes of a forest.
  unfoldable pub sum : (Process V → ℕ) → Forest V → ℕ
  sum g nil = 0
  sum g (node p c r) = g p + sum g c + sum g r

  pub sum-occ :
      (j : ℤ) (f : Forest V) → sum (λ q. tally j q.pid) f ≡ occ j (map pid_of (processes f))
  unfolding sum occ processes pid_of
  sum-occ j nil = refl
  sum-occ j (node p c r) =
      let split = ap (occ j) (map-append pid_of (processes c) (processes r)) in
      let both = occ-append j (map pid_of (processes c)) (map pid_of (processes r)) in
      omega (arith, split, both, sum-occ j c, sum-occ j r)

  pub sum_zero : (g : Process V → ℕ) (f : Forest V) → ((q : Process V) → g q ≡ 0) → sum g f ≡ 0
  unfolding sum
  sum_zero g nil h = refl
  sum_zero g (node p c r) h = omega (arith, h p, sum_zero g c h, sum_zero g r h)

  pub sum_same :
      (g h : Process V → ℕ) (f : Forest V) → ((q : Process V) → g q ≡ h q) → sum g f ≡ sum h f
  unfolding sum
  sum_same g h nil e = refl
  sum_same g h (node p c r) e = omega (arith, e p, sum_same g h c e, sum_same g h r e)

  -- A pid is as often in the forest as among its first level and the child lists of its processes.
  pub sum-IsForestOf :
      (j : ℤ) (procs : List (Process V)) (f : Forest V) (ks : List ℤ)
      → IsForestOf procs f ks
      → sum (λ q. tally j q.pid) f ≡ occ j ks + sum (λ q. occ j (children q.pid procs)) f
  unfolding sum occ
  sum-IsForestOf j procs nil [] nil_of = refl
  sum-IsForestOf j procs nil (k ∷ ks) h = elim h [ ]
  sum-IsForestOf j procs (node p c r) [] h = elim h [ ]
  sum-IsForestOf j procs (node p c r) (k ∷ ks) (node_of found same below rest) =
      let here = sum-IsForestOf j procs c (children k procs) below in
      let later = sum-IsForestOf j procs r ks rest in
      let mine = ap (tally j) same in
      let its = ap (λ i. occ j (children i procs)) same in omega (arith, here, later, mine, its)

  -- Whether a process is a root, and whether it is a child of `k`, as numbers.
  unfoldable pub rooted : Process V → ℕ
  rooted p = elim p.parent [ none ↦ 1 | some m ↦ 0 ]

  unfoldable pub under : ℤ → Process V → ℕ
  under k p = elim p.parent [ none ↦ 0 | some m ↦ tally m k ]

  occ-own_root :
      (j : ℤ) (p : Process V) → occ j (own_root p) ≡ (if eqb_ℤ p.pid j then rooted p else 0)
  unfolding own_root rooted occ tally
  occ-own_root j p = elim (Option-cases p.parent) [
    | inl o ↦ rw (own_root, rooted, o) (ground arith)
    | inr (m, o) ↦ rw (own_root, rooted, o) (ground arith)
  ]

  occ-own_child :
      (j k : ℤ) (p : Process V) → occ j (own_child k p) ≡ (if eqb_ℤ p.pid j then under k p else 0)
  unfolding own_child under occ tally
  occ-own_child j k p = elim (Option-cases p.parent) [
    | inl o ↦ rw (own_child, under, o) (ground arith)
    | inr (m, o) ↦ rw (own_child, under, o) (ground (arith, tally))
  ]

  -- A process counts for its own pid only.
  occ-own_other :
      (j k : ℤ) (p : Process V)
      → eqb_ℤ p.pid j ≡ false
      → (occ j (own_root p) ≡ 0) × (occ j (own_child k p) ≡ 0)
  occ-own_other j k p e = (occ-own_root j p ∙ rw e refl, occ-own_child j k p ∙ rw e refl)

  occ-own_same :
      (j k : ℤ) (p : Process V)
      → eqb_ℤ p.pid j ≡ true
      → (occ j (own_root p) ≡ rooted p) × (occ j (own_child k p) ≡ under k p)
  occ-own_same j k p e = (occ-own_root j p ∙ rw e refl, occ-own_child j k p ∙ rw e refl)

  pub missing :
      (j k : ℤ) (ps : List (Process V))
      → find_process j ps ≡ none
      → (occ j (roots ps) ≡ 0) × (occ j (children k ps) ≡ 0) × (occ j (map pid_of ps) ≡ 0)
  unfolding find_process roots children occ pid_of tally
  missing j k [] h = (refl, refl, refl)
  missing j k (p ∷ ps) h = elim (Bool-cases (eqb_ℤ p.pid j)) [
    | inl e ↦ let found : some p ≡ none = (rw e at h) in cc
    | inr e ↦
        let rest = missing j k ps (rw e at h) in
        let (first, second) = occ-own_other j k p e in
        (
          omega (arith, occ-append j (own_root p) (roots ps), first, rest.0),
          omega (arith, occ-append j (own_child k p) (children k ps), second, rest.1),
          rw e (omega (arith, rest.2)),
        )
  ]

  pub present :
      (j k : ℤ) (ps : List (Process V)) (q : Process V)
      → AllDistinct ps
      → find_process j ps ≡ some q
      → (occ j (roots ps) ≡ rooted q)
        × (occ j (children k ps) ≡ under k q)
        × (occ j (map pid_of ps) ≡ 1)
  unfolding find_process roots children occ pid_of tally
  present j k [] q distinct h = cc
  present j k (p ∷ ps) q distinct h = elim (Bool-cases (eqb_ℤ p.pid j)) [
    | inl e ↦
        let same : p ≡ q = some_inj.0 (rw e at h) in
        let (none_root, none_child, none_there) =
          missing j k ps
            (subst (λ i. find_process i ps ≡ none) ((eqb_ℤ_iff p.pid j).0 e) distinct.0) in
        let (first, second) = occ-own_same j k p e in
        (
          omega (arith, occ-append j (own_root p) (roots ps), first, none_root, ap rooted same),
          omega (
            arith,
            occ-append j (own_child k p) (children k ps),
            second,
            none_child,
            ap (under k) same,
          ),
          rw e (omega (arith, none_there)),
        )
    | inr e ↦
        let rest = present j k ps q distinct.1 (rw e at h) in
        let (first, second) = occ-own_other j k p e in
        (
          omega (arith, occ-append j (own_root p) (roots ps), first, rest.0),
          omega (arith, occ-append j (own_child k p) (children k ps), second, rest.1),
          rw e (omega (arith, rest.2)),
        )
  ]
