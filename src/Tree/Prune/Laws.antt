-- ===== src/Tree/Prune/Laws.antt =====
-- What `prune` leaves of a tree. `surviving_links` says which links stay.
use bootchart.Prelude.{
  ℕ, zero, suc, ◌+◌, ◌<◌, ◌≡◌, refl, inl, inr, Bool, true, false, Option, some, List, [], ◌∷◌, ◌++◌,
  append_assoc, if◌then◌else◌, Bool-cases, arith,
}
use mathlib.Core.List.{Perm, perm_append_comm}
use mathlib.Core.List.Perm
use bootchart.Samples.{Process}
use bootchart.Tree.Forest.{Link, links, Forest, nil, node, num_nodes, num_nodes-node, num_nodes-nil}
use bootchart.Tree.Prune.{Window, insert_children, leaves_tree, prune}

module _ {V : Type 0} where
  -- A process that leaves the tree hands its children to its own parent.
  unfoldable pub surviving_links : Bool → Window → Option (Process V) → Forest V → List (Link V)
  surviving_links has_parent w parent nil = []
  surviving_links has_parent w parent (node p c r) =
      (if leaves_tree has_parent w p c
        then surviving_links has_parent w parent c
        else (parent, p) ∷ surviving_links true w (some p) c)
      ++ surviving_links has_parent w parent r

  -- The links that the first process of a list leaves.
  abbrev first_links : Bool → Window → Option (Process V) → Process V → Forest V → List (Link V)
  first_links h w par p c =
      if leaves_tree h w p c
      then surviving_links h w par c
      else (par, p) ∷ surviving_links true w (some p) c

  num_nodes-insert_children :
      (c r : Forest V) → num_nodes (insert_children c r) ≡ num_nodes c + num_nodes r
  unfolding insert_children
  num_nodes-insert_children nil r = omega (arith, num_nodes-nil V)
  num_nodes-insert_children (node q d s) r =
      omega (
        arith,
        num_nodes-insert_children s (node q d r),
        num_nodes-node q d r,
        num_nodes-node q d s,
      )

  -- The children that come back into the list, in whatever order, add their own survivors.
  surviving_links-insert_children :
      (h : Bool) (w : Window) (par : Option (Process V)) (c r : Forest V)
      → Perm
          (surviving_links h w par (insert_children c r))
          (surviving_links h w par c ++ surviving_links h w par r)
  unfolding insert_children surviving_links
  surviving_links-insert_children h w par nil r = Perm.rfl
  surviving_links-insert_children h w par (node q d s) r =
      Perm.trans (surviving_links-insert_children h w par s (node q d r)) (
        rw (← append_assoc) (
          Perm.append_right (surviving_links h w par r)
            (perm_append_comm (surviving_links h w par s) (first_links h w par q d))))

  -- What `prune` has done when it returns `out`: the count, and the links that are left.
  pub record Prunes (h : Bool) (w : Window) (f : Forest V) (out : Forest V × ℕ) : Type 0 where
    pub counted : num_nodes f ≡ num_nodes out.0 + out.1
    pub left : (par : Option (Process V)) → Perm (links par out.0) (surviving_links h w par f)

  removed-Prunes :
      (h : Bool) (w : Window) (p : Process V) (c r f : Forest V) (k : ℕ)
      → leaves_tree h w p c ≡ true
      → Prunes h w (insert_children c r) (f, k)
      → Prunes h w (node p c r) (f, k + 1)
  unfolding surviving_links
  removed-Prunes h w p c r f k e ih = record {
    counted = omega (arith, ih.counted, num_nodes-insert_children c r, num_nodes-node p c r);
    left = λ par. rw e (Perm.trans (ih.left par) (surviving_links-insert_children h w par c r));
  }

  kept-Prunes :
      (h : Bool) (w : Window) (p : Process V) (c r c' r' : Forest V) (k m : ℕ)
      → leaves_tree h w p c ≡ false
      → Prunes true w c (c', k)
      → Prunes h w r (r', m)
      → Prunes h w (node p c r) (node p c' r', k + m)
  unfolding surviving_links links
  kept-Prunes h w p c r c' r' k m e ih_c ih_r = record {
    counted =
        omega (arith, ih_c.counted, ih_r.counted, num_nodes-node p c r, num_nodes-node p c' r');
    left = λ par. rw e (Perm.cons (par, p) (Perm.append (ih_c.left (some p)) (ih_r.left par)));
  }

  -- With more fuel than processes `prune` returns. The links of what is left are, but for the order
  -- among siblings, the links that survive, and the count is the number of processes taken out.
  pub prune-Prunes :
      (n : ℕ) (h : Bool) (w : Window) (f : Forest V)
      → num_nodes f < n
      → (out : Forest V × ℕ) × (prune n h w f ≡ some out) × Prunes h w f out
  unfolding prune surviving_links links
  prune-Prunes zero h w f lt = elim lt [ ]
  prune-Prunes (suc n) h w nil lt =
      ((nil, 0), refl, record { counted = omega arith; left = λ par. Perm.rfl })
  prune-Prunes (suc n) h w (node p c r) lt = elim (Bool-cases (leaves_tree h w p c)) [
    | inl e ↦
        let ((f', k), run, ih) =
          prune-Prunes n h w (insert_children c r)
            (omega (arith, num_nodes-insert_children c r, num_nodes-node p c r)) in
        ((f', k + 1), rw (e, run) refl, removed-Prunes h w p c r f' k e ih)
    | inr e ↦
        let ((c', k), run_c, ih_c) =
          prune-Prunes n true w c (omega (arith, num_nodes-node p c r)) in
        let ((r', m), run_r, ih_r) = prune-Prunes n h w r (omega (arith, num_nodes-node p c r)) in
        (
          (node p c' r', k + m),
          rw (e, run_c, run_r) refl,
          kept-Prunes h w p c r c' r' k m e ih_c ih_r,
        )
  ]
