-- ===== src/Tree/Build/Complete.antt =====
-- Every process of the list stands once in the forest that `build` makes of it.
use mathlib.Core.Path.{subst}
use mathlib.Core.Option.{some_inj}
use bootchart.Prelude.{
  ℕ, zero, suc, ◌+◌, ◌<◌, ◌≤◌, [], ◌∷◌, arith, ◌≡◌, refl, sym, ap, ◌∙◌, ◌⊎◌, inl, inr, none, some,
  List, map, Bool-cases, Option-cases,
}
use bootchart.Prelude.Int.{ℤ, eqb_ℤ, eqb_ℤ_iff}
use bootchart.Prelude.Tally.{tally, occ}
use bootchart.Samples.{Process}
use bootchart.Tree.Forest.{Forest, processes}
use bootchart.Tree.Build.{find_process}
use bootchart.Tree.Build.Laws.{roots, children}
use bootchart.Tree.Build.Counts.{
  AllDistinct, IsFound, AllFound, pid_of, sum-occ, sum_zero, sum_same, sum-IsForestOf, rooted,
  under, missing, present,
}
use bootchart.Tree.Build.Forests.{IsForestOf, IsBelow, AllRanked}

module _ {V : Type 0} where
  -- The parent of a process of the list is one too, of a higher rank.
  has_parent :
      (rank : ℤ → ℕ) (procs ps : List (Process V)) (j m : ℤ) (q : Process V)
      → AllRanked rank ps
      → AllFound procs ps
      → find_process j ps ≡ some q
      → q.parent ≡ some m
      → (rank j < rank m) × ((r : Process V) × (find_process m procs ≡ some r))
  unfolding find_process
  has_parent rank procs [] j m q ranked found h up = cc
  has_parent rank procs (p ∷ ps) j m q ranked found h up = elim (Bool-cases (eqb_ℤ p.pid j)) [
    | inl e ↦
        let same : p ≡ q = some_inj.0 (rw e at h) in
        let its : p.parent ≡ some m = ap (λ (x : Process V). x.parent) same ∙ up in
        let higher : rank p.pid < rank m = subst (IsBelow rank p.pid) its ranked.0 in
        (
          subst (λ i. rank i < rank m) ((eqb_ℤ_iff p.pid j).0 e) higher,
          subst (IsFound procs) its found.0,
        )
    | inr e ↦ has_parent rank procs ps j m q ranked.1 found.1 (rw e at h) up
  ]

  module _ (rank : ℤ → ℕ) (depth : ℕ) (procs : List (Process V)) (f : Forest V)
      (distinct : AllDistinct procs) (ranked : AllRanked rank procs) (found : AllFound procs procs)
      (deep : (pid : ℤ) → rank pid ≤ depth) (fits : IsForestOf procs f (roots procs)) where
    occ-missing : (j : ℤ) → find_process j procs ≡ none → occ j (map pid_of (processes f)) ≡ 0
    occ-missing j none_there =
        let all = sum-IsForestOf j procs f (roots procs) fits in
        let first = (missing j j procs none_there).0 in
        let rest =
          sum_zero (λ q. occ j (children q.pid procs)) f
            (λ q. (missing j q.pid procs none_there).1) in
        omega (arith, sum-occ j f, all, first, rest)

    -- A root is there once, and a child as often as its parent.
    occ-parent :
        (j : ℤ) (q : Process V)
        → find_process j procs ≡ some q
        → ((q.parent ≡ none) × (occ j (map pid_of (processes f)) ≡ 1))
          ⊎ ((m : ℤ) × (q.parent ≡ some m)
              × (occ j (map pid_of (processes f)) ≡ occ m (map pid_of (processes f))))
    unfolding rooted under
    occ-parent j q there =
        let all = sum-IsForestOf j procs f (roots procs) fits in
        let first = (present j j procs q distinct there).0 in
        let rest =
          sum_same (λ p. occ j (children p.pid procs)) (λ p. under p.pid q) f
            (λ p. (present j p.pid procs q distinct there).1) in
        elim (Option-cases q.parent) [
          | inl o ↦
              let one : rooted q ≡ 1 = rw (rooted, o) refl in
              let no_more = sum_zero (λ p. under p.pid q) f (λ p. rw (under, o) refl) in
              inl (o, omega (arith, sum-occ j f, all, first, rest, one, no_more))
          | inr (m, o) ↦
              let no_root : rooted q ≡ 0 = rw (rooted, o) refl in
              let its =
                sum_same (λ p. under p.pid q) (λ p. tally m p.pid) f (λ p. rw (under, o) refl) in
              inr (m, o, omega (arith, sum-occ j f, sum-occ m f, all, first, rest, no_root, its))
        ]

    occ-present :
        (n : ℕ) (j : ℤ) (q : Process V)
        → find_process j procs ≡ some q
        → depth ≤ rank j + n
        → occ j (map pid_of (processes f)) ≡ 1
    occ-present zero j q there le = elim (occ-parent j q there) [
      | inl (o, one) ↦ one
      | inr (m, o, its) ↦
          let up = has_parent rank procs procs j m q ranked found there o in
          absurd (omega (arith, up.0, deep m, le))
    ]
    occ-present (suc n) j q there le = elim (occ-parent j q there) [
      | inl (o, one) ↦ one
      | inr (m, o, its) ↦
          let up = has_parent rank procs procs j m q ranked found there o in
          its ∙ occ-present n m up.1.0 up.1.1 (omega (arith, up.0, le))
    ]

    pub occ-processes : (j : ℤ) → occ j (map pid_of (processes f)) ≡ occ j (map pid_of procs)
    occ-processes j = elim (Option-cases (find_process j procs)) [
      | inl e ↦ occ-missing j e ∙ sym (missing j j procs e).2
      | inr (q, e) ↦ occ-present depth j q e (omega arith) ∙ sym (present j j procs q distinct e).2
    ]
