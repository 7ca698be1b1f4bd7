-- ===== src/Tree/Sort/Laws.antt =====
-- What `sort` does to a tree.
use mathlib.Core.List.{Perm, perm_append_comm}
use mathlib.Core.List.Perm
use bootchart.Prelude.{
  ℕ, zero, suc, ◌+◌, ◌<◌, ◌≡◌, refl, ap, ◌∙◌, inl, inr, Option, some, List, [], ◌∷◌, Bool-cases,
  append_assoc, arith,
}
use bootchart.Prelude.Int.{ℤ, leb_ℤ}
use bootchart.Prelude.Sort.{insert_by, sort_by, IsSortedBy, sort_by-IsSortedBy}
use bootchart.Samples.{Process}
use bootchart.Tree.Forest.{links, Forest, nil, node, num_nodes, num_nodes-node}
use bootchart.Tree.Sort.{insert_by_pid, sort_by_pid, sort}

abbrev same : ℤ → ℤ
same x = x

module _ {V : Type 0} where
  -- The pids of the processes of a list.
  unfoldable pub pids : Forest V → List ℤ
  pids nil = []
  pids (node p c r) = p.pid ∷ pids r

  -- Every child list ascends by pid.
  abbrev pub HasSortedChildren : Forest V → Type 0
  HasSortedChildren nil = Unit
  HasSortedChildren (node p c r) =
      IsSortedBy same (pids c) × HasSortedChildren c × HasSortedChildren r

  pids-insert_by_pid :
      (p : Process V) (c f : Forest V) → pids (insert_by_pid p c f) ≡ insert_by same p.pid (pids f)
  unfolding pids insert_by_pid insert_by
  pids-insert_by_pid p c nil = refl
  pids-insert_by_pid p c (node q d r) = elim (Bool-cases (leb_ℤ p.pid q.pid)) [
    | inl e ↦ rw e refl
    | inr e ↦ rw e (ap (◌∷◌ q.pid) (pids-insert_by_pid p c r))
  ]

  pids-sort_by_pid : (f : Forest V) → pids (sort_by_pid f) ≡ sort_by same (pids f)
  unfolding pids sort_by_pid sort_by
  pids-sort_by_pid nil = refl
  pids-sort_by_pid (node p c r) =
      pids-insert_by_pid p c (sort_by_pid r) ∙ ap (insert_by same p.pid) (pids-sort_by_pid r)

  num_nodes-insert_by_pid :
      (p : Process V) (c f : Forest V)
      → num_nodes (insert_by_pid p c f) ≡ num_nodes c + num_nodes f + 1
  unfolding insert_by_pid
  num_nodes-insert_by_pid p c nil = omega (arith, num_nodes-node p c nil)
  num_nodes-insert_by_pid p c (node q d r) = elim (Bool-cases (leb_ℤ p.pid q.pid)) [
    | inl e ↦ rw e (num_nodes-node p c (node q d r))
    | inr e ↦ rw e (
        omega (
          arith,
          num_nodes-node q d (insert_by_pid p c r),
          num_nodes-node q d r,
          num_nodes-insert_by_pid p c r,
        ))
  ]

  num_nodes-sort_by_pid : (f : Forest V) → num_nodes (sort_by_pid f) ≡ num_nodes f
  unfolding sort_by_pid
  num_nodes-sort_by_pid nil = refl
  num_nodes-sort_by_pid (node p c r) = omega (
    arith,
    num_nodes-node p c r,
    num_nodes-insert_by_pid p c (sort_by_pid r),
    num_nodes-sort_by_pid r,
  )

  links-insert_by_pid :
      (par : Option (Process V)) (p : Process V) (c f : Forest V)
      → Perm (links par (insert_by_pid p c f)) (links par (node p c f))
  unfolding insert_by_pid links
  links-insert_by_pid par p c nil = Perm.rfl
  links-insert_by_pid par p c (node q d r) = elim (Bool-cases (leb_ℤ p.pid q.pid)) [
    | inl e ↦ rw e Perm.rfl
    | inr e ↦ rw e (
        Perm.trans (Perm.append_left ((par, q) ∷ links (some q) d) (links-insert_by_pid par p c r))
          (simp append_assoc at (
            Perm.append_right (links par r)
              (perm_append_comm ((par, q) ∷ links (some q) d) ((par, p) ∷ links (some p) c)))))
  ]

  links-sort_by_pid :
      (par : Option (Process V)) (f : Forest V) → Perm (links par (sort_by_pid f)) (links par f)
  unfolding sort_by_pid links
  links-sort_by_pid par nil = Perm.rfl
  links-sort_by_pid par (node p c r) =
      Perm.trans (links-insert_by_pid par p c (sort_by_pid r))
        (Perm.append_left ((par, p) ∷ links (some p) c) (links-sort_by_pid par r))

  links-node :
      (p : Process V) (c c' r r' : Forest V) (par : Option (Process V))
      → Perm (links (some p) c') (links (some p) c)
      → Perm (links par r') (links par r)
      → Perm (links par (node p c' r')) (links par (node p c r))
  unfolding links
  links-node p c c' r r' par a b = Perm.cons (par, p) (Perm.append a b)

  pids-node :
      (p : Process V) (c c' r r' : Forest V)
      → pids r' ≡ pids r
      → pids (node p c' r') ≡ pids (node p c r)
  unfolding pids
  pids-node p c c' r r' e = ap (◌∷◌ p.pid) e

  -- `sort` returns when it has more fuel than there are processes. Every child list of the result
  -- ascends by pid, every process has the parent that it had, the list itself is in its
  -- order, and the number of processes is the same.
  pub sort-HasSortedChildren :
      (n : ℕ) (f : Forest V)
      → num_nodes f < n
      → (g : Forest V) × (sort n f ≡ some g)
        × HasSortedChildren g
        × ((par : Option (Process V)) → Perm (links par g) (links par f))
        × (pids g ≡ pids f)
        × (num_nodes g ≡ num_nodes f)
  unfolding sort
  sort-HasSortedChildren zero f lt = elim lt [ ]
  sort-HasSortedChildren (suc n) nil lt = (nil, refl, tt, (λ par. Perm.rfl), refl, refl)
  sort-HasSortedChildren (suc n) (node p c r) lt =
      let size = num_nodes-node p c r in
      let (c', run, s, l, e, k) =
        sort-HasSortedChildren n (sort_by_pid c) (omega (arith, size, num_nodes-sort_by_pid c)) in
      let (r', run', s', l', e', k') = sort-HasSortedChildren n r (omega (arith, size)) in
      (
        node p c' r',
        rw (run, run') refl,
        (rw (e, pids-sort_by_pid c) (sort_by-IsSortedBy same (pids c)), s, s'),
        (λ par.
            links-node p c c' r r' par (Perm.trans (l (some p)) (links-sort_by_pid (some p) c))
              (l' par)),
        pids-node p c c' r r' e',
        omega (arith, size, k, k', num_nodes-sort_by_pid c, num_nodes-node p c' r'),
      )
