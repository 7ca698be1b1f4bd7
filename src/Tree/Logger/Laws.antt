-- ===== src/Tree/Logger/Laws.antt =====
-- What `merge_logger` does to a tree.
use mathlib.Core.List.{Perm}
use mathlib.Core.List.Perm
use bootchart.Prelude.{
  ℕ, zero, suc, ◌+◌, ◌/◌, ◌<◌, ◌≤◌, ◌≡◌, refl, ap, Bool, true, false, inl, inr, Option, none, some,
  List, [], ◌++◌, Text, text_eq, Bool-cases, append_assoc, append-nil, arith,
}
use bootchart.Samples.{Process, ProcessSample, merge_processes}
use bootchart.Tree.Forest.{Forest, nil, node, len, num_nodes, num_nodes-node, num_nodes-nil}
use bootchart.Tree.Merges.{samples-merge_processes}
use bootchart.Tree.Logger.{Sweep, keep, take_out, is_monitored, sweep, merge_logger}

module _ {V : Type 0} where
  -- The samples of the processes of a list, without those below.
  unfoldable pub own_samples : Forest V → List (ProcessSample V)
  own_samples nil = []
  own_samples (node p c r) = p.samples ++ own_samples r

  -- The children of the logger are the ones that stay and the ones that go; the latter are counted,
  -- and their samples are the logger's now.
  pub record Splits (p : Process V) (c : Forest V) (s : Sweep V) : Type 0 where
    pub nodes : num_nodes c ≡ num_nodes s.kept + num_nodes s.removed
    pub taken : len s.removed ≡ s.count
    pub sizes : len c ≡ len s.kept + len s.removed
    pub sampled : Perm s.logger.samples (p.samples ++ own_samples s.removed)

  Splits-nil :
      (p : Process V) → Splits p nil (record { logger = p; kept = nil; removed = nil; count = 0 })
  unfolding len own_samples
  Splits-nil p = record {
    nodes = omega (arith, num_nodes-nil V);
    taken = refl;
    sizes = omega arith;
    sampled = rw (append-nil p.samples) Perm.rfl;
  }

  Splits-keep :
      (q : Process V) (d : Forest V) {p : Process V} {c : Forest V} {s : Sweep V}
      → Splits p c s
      → Splits p (node q d c) (keep q d s)
  unfolding len
  Splits-keep q d {p} {c} {s} h = record {
    nodes = omega (arith, h.nodes, num_nodes-node q d c, num_nodes-node q d s.kept);
    taken = h.taken;
    sizes = omega (arith, h.sizes);
    sampled = h.sampled;
  }

  Splits-take_out :
      (q : Process V) (d : Forest V) {p : Process V} {c : Forest V} {s : Sweep V}
      → Splits (merge_processes p q) c s
      → Splits p (node q d c) (take_out q d s)
  unfolding len own_samples
  Splits-take_out q d {p} {c} {s} h = record {
    nodes = omega (arith, h.nodes, num_nodes-node q d c, num_nodes-node q d s.removed);
    taken = omega (arith, h.taken);
    sizes = omega (arith, h.sizes);
    sampled = Perm.trans h.sampled (
        rw (← append_assoc)
          (Perm.append_right (own_samples s.removed) (samples-merge_processes p q)));
  }

  -- The loop over a logger's children parts them into the ones that stay and the ones that go; it
  -- counts the latter, and the logger ends with its own samples and theirs.
  pub sweep-Splits : (app : Option Text) (p : Process V) (c : Forest V) → Splits p c (sweep app p c)
  unfolding sweep
  sweep-Splits app p nil = Splits-nil p
  sweep-Splits app p (node q d nil) = elim (Bool-cases (is_monitored app q.cmd)) [
    | inl e ↦ rw e (Splits-keep q d (Splits-nil p))
    | inr e ↦ rw e (Splits-take_out q d (Splits-nil (merge_processes p q)))
  ]
  sweep-Splits app p (node q d (node s e t)) = elim (Bool-cases (is_monitored app q.cmd)) [
    | inl h ↦ rw h (Splits-keep q d (sweep-Splits app p (node s e t)))
    | inr h ↦
        rw h (Splits-take_out q d (Splits-keep s e (sweep-Splits app (merge_processes p q) t)))
  ]

  -- Every second tree of a list, from the first one on for `true`, from the second one on for `false`.
  unfoldable pub every_second : Bool → Forest V → Forest V
  every_second b nil = nil
  every_second true (node p c r) = node p c (every_second false r)
  every_second false (node p c r) = every_second true r

  -- With no monitored application the loop over a logger's children takes out the first, the third and
  -- so on, and leaves the second, the fourth and so on in the tree, though all are to be merged; it
  -- counts the ones that it takes out, and half of the children stay.
  pub sweep-half :
      (p : Process V) (c : Forest V)
      → ((sweep none p c).removed ≡ every_second true c)
        × ((sweep none p c).kept ≡ every_second false c)
        × ((sweep none p c).count ≡ len (every_second true c))
        × (len (sweep none p c).kept ≡ len c / 2)
  unfolding sweep is_monitored every_second len
  sweep-half p nil = (refl, refl, refl, omega arith)
  sweep-half p (node q d nil) = (refl, refl, omega arith, omega arith)
  sweep-half p (node q d (node s e t)) =
      let (gone, stay, count, half) = sweep-half (merge_processes p q) t in
      (
        ap (λ f. node q d f) gone,
        ap (λ f. node s e f) stay,
        omega (arith, count),
        omega (arith, half),
      )

  len-le-num_nodes : (f : Forest V) → len f ≤ num_nodes f
  unfolding num_nodes
  len-le-num_nodes f = omega arith

  -- `merge_logger` returns when it has more fuel than there are processes. It counts no more
  -- processes than have left the tree, and none leaves the list itself.
  pub merge_logger-count :
      (n : ℕ) (name : Text) (app : Option Text) (f : Forest V)
      → num_nodes f < n
      → (out : Forest V × ℕ) × (merge_logger n name app f ≡ some out)
        × (num_nodes out.0 + out.1 ≤ num_nodes f)
        × (len out.0 ≡ len f)
  unfolding merge_logger len
  merge_logger-count zero name app f lt = elim lt [ ]
  merge_logger-count (suc n) name app nil lt = ((nil, 0), refl, omega arith, refl)
  merge_logger-count (suc n) name app (node p c r) lt = elim (Bool-cases (text_eq p.cmd name)) [
    | inl e ↦
        let s = sweep app p c in
        let split = sweep-Splits app p c in
        let size = num_nodes-node p c r in
        let ((c', k), run, le, l) =
          merge_logger-count n name app s.kept (omega (arith, split.nodes, size)) in
        let ((x, m), run', le', l') =
          merge_logger-count n name app s.removed (omega (arith, split.nodes, size)) in
        let ((r', j), run'', le'', l'') = merge_logger-count n name app r (omega (arith, size)) in
        (
          (node s.logger c' r', s.count + k + m + j),
          rw (e, run, run', run'') refl,
          omega (
            arith,
            le,
            le',
            le'',
            size,
            split.nodes,
            split.taken,
            l',
            len-le-num_nodes x,
            num_nodes-node s.logger c' r',
          ),
          omega (arith, l''),
        )
    | inr e ↦
        let size = num_nodes-node p c r in
        let ((c', k), run, le, l) = merge_logger-count n name app c (omega (arith, size)) in
        let ((r', m), run', le', l') = merge_logger-count n name app r (omega (arith, size)) in
        (
          (node p c' r', k + m),
          rw (e, run, run') refl,
          omega (arith, le, le', size, num_nodes-node p c' r'),
          omega (arith, l'),
        )
  ]
