-- ===== src/Tree/Siblings/Laws.antt =====
-- What `merge_siblings` does to a tree.
use bootchart.Prelude.{
  ℕ, zero, suc, ◌+◌, ◌<◌, ◌≡◌, ◌≢◌, refl, inl, inr, false, some, Text, text_eq, text_eq_iff,
  Bool-cases, arith,
}
use bootchart.Samples.{Process, merge_processes}
use bootchart.Tree.Forest.{Forest, nil, node, append, num_nodes, num_nodes-node, num_nodes-append}
use bootchart.Tree.Merges.{
  head_cmd, Merges, Merges-refl, Merges-trans, Merges-node, Merges-first, Merges-siblings,
}
use bootchart.Tree.Siblings.{merge_siblings}

module _ {V : Type 0} where
  -- No two neighbours of a list, at any level, have the same command line.
  abbrev pub HasNoTwins : Forest V → Type 0
  HasNoTwins nil = Unit
  HasNoTwins (node p c r) = (head_cmd r ≢ some p.cmd) × HasNoTwins c × HasNoTwins r

  no_twin_next :
      (t : Text) (q : Process V) (d r r' : Forest V)
      → text_eq q.cmd t ≡ false
      → head_cmd r' ≡ head_cmd (node q d r)
      → head_cmd r' ≢ some t
  unfolding head_cmd
  no_twin_next t q d r r' e h h' = ground (arith, text_eq_iff q.cmd t)

  merged_size :
      (p q : Process V) (c d r : Forest V)
      → num_nodes (node p c (node q d r)) ≡ num_nodes (append c d) + num_nodes r + 2
  merged_size p q c d r =
      omega (arith, num_nodes-node p c (node q d r), num_nodes-node q d r, num_nodes-append c d)

  -- `merge_siblings` returns when it has more fuel than there are processes. The result
  -- has no neighbours of one command line. The samples, the earliest start and the latest end are as
  -- before, and the count is the number of processes that are gone.
  pub merge_siblings-Merges :
      (n : ℕ) (f : Forest V)
      → num_nodes f < n
      → (out : Forest V × ℕ) × (merge_siblings n f ≡ some out)
        × Merges f out.0 out.1
        × HasNoTwins out.0
  unfolding merge_siblings
  merge_siblings-Merges zero f lt = elim lt [ ]
  merge_siblings-Merges (suc n) nil lt = ((nil, 0), refl, Merges-refl nil, tt)
  merge_siblings-Merges (suc n) (node p c nil) lt =
      let ((c', k), run, m, t) =
        merge_siblings-Merges n c (omega (arith, num_nodes-node p c nil)) in
      ((node p c' nil, k), rw run refl, Merges-first p nil m, (unfold head_cmd in (λ e. cc), t, tt))
  merge_siblings-Merges (suc n) (node p c (node q d r)) lt =
      elim (Bool-cases (text_eq q.cmd p.cmd)) [
        | inl e ↦
            let size = merged_size p q c d r in
            let ((c', k), run, m, t) = merge_siblings-Merges n (append c d) (omega (arith, size)) in
            let ((f, j), run', m', t') =
              merge_siblings-Merges n (node (merge_processes p q) c' r)
                (omega (arith, size, m.counted, num_nodes-node (merge_processes p q) c' r)) in
            (
              (f, 1 + k + j),
              rw (e, run, run') refl,
              Merges-trans
                  (Merges-trans (Merges-siblings p q c d r)
                    (Merges-first (merge_processes p q) r m))
                  m',
              t',
            )
        | inr e ↦
            let ((c', k), run, m, t) =
              merge_siblings-Merges n c (omega (arith, num_nodes-node p c (node q d r))) in
            let ((r', j), run', m', t') =
              merge_siblings-Merges n (node q d r)
                (omega (arith, num_nodes-node p c (node q d r))) in
            (
              (node p c' r', k + j),
              rw (e, run, run') refl,
              Merges-node p m m',
              (no_twin_next p.cmd q d r r' e m'.headed, t, t'),
            )
      ]
