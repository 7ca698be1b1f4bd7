-- ===== src/Tree/Build/Forests.antt =====
-- The forest that the lists of `build` describe, where the parents do not go round in a circle.
use mathlib.Core.Path.{subst}
use mathlib.Core.Option.{some_inj}
use bootchart.Prelude.{
  ℕ, zero, suc, ◌<◌, ◌≤◌, ◌++◌, [], ◌∷◌, arith, ◌≡◌, refl, sym, ◌⊎◌, ◌∙◌, ap, inl, inr, Option,
  none, some, List, Bool-cases, Option-cases,
}
use bootchart.Prelude.Int.{ℤ, eqb_ℤ, eqb_ℤ_iff}
use bootchart.Samples.{Process}
use bootchart.Tree.Forest.{Forest, nil, node}
use bootchart.Tree.Build.{Lists, find_process, forest_of}
use bootchart.Tree.Build.Laws.{own_root, own_child, roots, children}

-- The parent of `k`, if it has one, is of a higher rank.
abbrev pub IsBelow : (ℤ → ℕ) → ℤ → Option ℤ → Type 0
IsBelow rank k none = Unit
IsBelow rank k (some j) = rank k < rank j

module _ {V : Type 0} where
  -- The lists are those that the parents of the processes say: the roots are the processes without a
  -- parent, and a child list has the processes with that parent, in the order of the process list.
  pub record IsBuilt (procs : List (Process V)) (l : Lists) : Type 0 where
    pub rooted : l.process_tree ≡ roots procs
    pub parented : (k : ℤ) → l.child_list k ≡ children k procs

  -- Every step to a parent goes up in `rank`: the parents do not go round in a circle.
  abbrev pub AllRanked : (ℤ → ℕ) → List (Process V) → Type 0
  AllRanked rank [] = Unit
  AllRanked rank (p ∷ ps) = IsBelow rank p.pid p.parent × AllRanked rank ps

  -- Pids of processes of the list, all of a rank below `n`.
  abbrev pub AllBelow : (ℤ → ℕ) → List (Process V) → ℕ → List ℤ → Type 0
  AllBelow rank procs n [] = Unit
  AllBelow rank procs n (j ∷ js) =
      (rank j < n) × ((p : Process V) × (find_process j procs ≡ some p)) × AllBelow rank procs n js

  pub find_process-cons :
      (q : Process V) (j : ℤ) (ps : List (Process V))
      → (p : Process V) × (find_process j ps ≡ some p)
      → (p : Process V) × (find_process j (q ∷ ps) ≡ some p)
  unfolding find_process
  find_process-cons q j ps (p, e) = elim (Bool-cases (eqb_ℤ q.pid j)) [
    | inl h ↦ (q, rw h refl)
    | inr h ↦ (p, rw h e)
  ]

  pub find_process-head :
      (q : Process V) (ps : List (Process V)) → find_process q.pid (q ∷ ps) ≡ some q
  unfolding find_process
  find_process-head q ps = rw ((eqb_ℤ_iff q.pid q.pid).1 refl) refl

  AllBelow-cons :
      (rank : ℤ → ℕ) (q : Process V) (ps : List (Process V)) (n : ℕ) (js : List ℤ)
      → AllBelow rank ps n js
      → AllBelow rank (q ∷ ps) n js
  AllBelow-cons rank q ps n [] h = tt
  AllBelow-cons rank q ps n (j ∷ js) h =
      (h.0, find_process-cons q j ps h.1, AllBelow-cons rank q ps n js h.2)

  own_child-cases :
      (k : ℤ) (p : Process V)
      → (own_child k p ≡ []) ⊎ ((own_child k p ≡ p.pid ∷ []) × (p.parent ≡ some k))
  unfolding own_child
  own_child-cases k p = elim (Option-cases p.parent) [
    | inl e ↦ inl (rw (own_child, e) refl)
    | inr (j, e) ↦ elim (Bool-cases (eqb_ℤ j k)) [
      | inl b ↦ inr (rw (own_child, e, b) refl, e ∙ ap some ((eqb_ℤ_iff j k).0 b))
      | inr b ↦ inl (rw (own_child, e, b) refl)
    ]
  ]

  AllBelow-own_child :
      (rank : ℤ → ℕ) (k : ℤ) (p : Process V) (ps : List (Process V)) (js : List ℤ)
      → AllRanked rank (p ∷ ps)
      → AllBelow rank (p ∷ ps) (rank k) js
      → AllBelow rank (p ∷ ps) (rank k) (own_child k p ++ js)
  AllBelow-own_child rank k p ps js ranked h = elim (own_child-cases k p) [
    | inl e ↦ rw e h
    | inr (e, parent) ↦
        rw e (subst (IsBelow rank p.pid) parent ranked.0, (p, find_process-head p ps), h)
  ]

  pub AllBelow-children :
      (rank : ℤ → ℕ) (k : ℤ) (ps : List (Process V))
      → AllRanked rank ps
      → AllBelow rank ps (rank k) (children k ps)
  unfolding children
  AllBelow-children rank k [] h = tt
  AllBelow-children rank k (p ∷ ps) h =
      AllBelow-own_child rank k p ps (children k ps) h
        (AllBelow-cons rank p ps (rank k) (children k ps) (AllBelow-children rank k ps h.1))

  own_root-cases : (p : Process V) → (own_root p ≡ []) ⊎ (own_root p ≡ p.pid ∷ [])
  unfolding own_root
  own_root-cases p = elim (Option-cases p.parent) [
    | inl e ↦ inr (rw (own_root, e) refl)
    | inr (k, e) ↦ inl (rw (own_root, e) refl)
  ]

  AllBelow-own_root :
      (rank : ℤ → ℕ) (n : ℕ) (p : Process V) (ps : List (Process V)) (js : List ℤ)
      → rank p.pid < n
      → AllBelow rank (p ∷ ps) n js
      → AllBelow rank (p ∷ ps) n (own_root p ++ js)
  AllBelow-own_root rank n p ps js lt h = elim (own_root-cases p) [
    | inl e ↦ rw e h
    | inr e ↦ rw e (lt, (p, find_process-head p ps), h)
  ]

  pub AllBelow-roots :
      (rank : ℤ → ℕ) (n : ℕ) (ps : List (Process V))
      → ((pid : ℤ) → rank pid < n)
      → AllBelow rank ps n (roots ps)
  unfolding roots
  AllBelow-roots rank n [] lt = tt
  AllBelow-roots rank n (p ∷ ps) lt =
      AllBelow-own_root rank n p ps (roots ps) (lt p.pid)
        (AllBelow-cons rank p ps n (roots ps) (AllBelow-roots rank n ps lt))

  -- The forest below some pids: at every level the processes of a child list, each with the forest
  -- below its own.
  pub data IsForestOf (procs : List (Process V)) : Forest V → List ℤ → Type 0 where
    nil_of : IsForestOf procs nil []
    node_of :
        {k : ℤ} {p : Process V} {c r : Forest V} {ks : List ℤ}
        → find_process k procs ≡ some p
        → p.pid ≡ k
        → IsForestOf procs c (children k procs)
        → IsForestOf procs r ks
        → IsForestOf procs (node p c r) (k ∷ ks)

  find_process-pid :
      (k : ℤ) (ps : List (Process V)) (p : Process V) → find_process k ps ≡ some p → p.pid ≡ k
  unfolding find_process
  find_process-pid k [] p h = cc
  find_process-pid k (q ∷ ps) p h = elim (Bool-cases (eqb_ℤ q.pid k)) [
    | inl e ↦
        let found : some q ≡ some p = (rw e at h) in
        ap (λ (x : Process V). x.pid) (some_inj.0 (sym found)) ∙ (eqb_ℤ_iff q.pid k).0 e
    | inr e ↦ find_process-pid k ps p (rw e at h)
  ]

  -- The lists below some pids make a forest, if they are not deeper than the bound.
  pub forest_of_total :
      (rank : ℤ → ℕ) (depth n : ℕ) (procs : List (Process V)) (l : Lists) (ks : List ℤ)
      → AllRanked rank procs
      → IsBuilt procs l
      → AllBelow rank procs n ks
      → n ≤ depth
      → (f : Forest V) × (forest_of depth procs l ks ≡ some f) × IsForestOf procs f ks
  unfolding forest_of
  forest_of_total rank zero n procs l [] ranked built below le = (nil, refl, nil_of)
  forest_of_total rank zero n procs l (k ∷ ks) ranked built below le =
      absurd (omega (arith, below.0, le))
  forest_of_total rank (suc depth) n procs l [] ranked built below le = (nil, refl, nil_of)
  forest_of_total rank (suc depth) n procs l (k ∷ ks) ranked built below le =
      let (p, found) = below.1 in
      let (c, e, fits) =
        forest_of_total rank depth (rank k) procs l (l.child_list k) ranked built
          (rw (built.parented k) (AllBelow-children rank k procs ranked))
          (omega (arith, below.0, le)) in
      let (r, g, rest) = forest_of_total rank (suc depth) n procs l ks ranked built below.2 le in
      (
        node p c r,
        rw (found, e, g) refl,
        node_of found (find_process-pid k procs p found)
            (subst (IsForestOf procs c) (built.parented k) fits) rest,
      )
