-- ===== src/Tree/Merges.antt =====
-- What the merging passes keep of a tree: all but the number of its processes.
use mathlib.Core.List.{Perm, perm_append_comm}
use mathlib.Core.List.Perm
use bootchart.Prelude.{
  ℕ, ◌+◌, ◌≡◌, refl, sym, ap, ◌∙◌, Option, none, some, List, [], ◌++◌, Text, append_assoc,
  append-nil, arith,
}
use bootchart.Prelude.Int.{min_ℤ, max_ℤ, min_ℤ_regroup, max_ℤ_regroup, min_ℤ_run, max_ℤ_run}
use bootchart.Prelude.Sort.{sort_by-perm, sort_by-IsSortedBy, IsSortedBy}
use bootchart.Samples.{Process, ProcessSample, merge_processes, end_time}
use bootchart.Tree.Forest.{
  Forest, nil, node, append, num_nodes, num_nodes-node, num_nodes-nil, num_nodes-append,
  get_start_time, get_end_time,
}
use bootchart.Tree.Times.{
  get_start_time-node, get_end_time-node, get_start_time-single, get_end_time-single,
  get_start_time-append, get_end_time-append, end_time-merge_processes, start_time-merge_processes,
}

module _ {V : Type 0} where
  -- The command line of the first process of a list.
  unfoldable pub head_cmd : Forest V → Option Text
  head_cmd nil = none
  head_cmd (node p c r) = some p.cmd

  -- All the samples of a forest.
  unfoldable pub all_samples : Forest V → List (ProcessSample V)
  all_samples nil = []
  all_samples (node p c r) = p.samples ++ (all_samples c ++ all_samples r)

  -- Nothing but the number of processes is lost when `f` becomes `g`, by `k` merges.
  pub record Merges (f g : Forest V) (k : ℕ) : Type 0 where
    pub counted : num_nodes f ≡ num_nodes g + k
    pub starts : get_start_time g ≡ get_start_time f
    pub ends : get_end_time g ≡ get_end_time f
    pub sampled : Perm (all_samples g) (all_samples f)
    pub headed : head_cmd g ≡ head_cmd f

  pub Merges-refl : (f : Forest V) → Merges f f 0
  Merges-refl f = record {
    counted = omega arith;
    starts = refl;
    ends = refl;
    sampled = Perm.rfl;
    headed = refl;
  }

  pub Merges-trans : {f g h : Forest V} {k m : ℕ} → Merges f g k → Merges g h m → Merges f h (k + m)
  Merges-trans a b = record {
    counted = omega (arith, a.counted, b.counted);
    starts = b.starts ∙ a.starts;
    ends = b.ends ∙ a.ends;
    sampled = Perm.trans b.sampled a.sampled;
    headed = b.headed ∙ a.headed;
  }

  -- Merges inside the children of the first process and inside the rest of the list.
  pub Merges-node :
      (p : Process V) {c c' r r' : Forest V} {k m : ℕ}
      → Merges c c' k
      → Merges r r' m
      → Merges (node p c r) (node p c' r') (k + m)
  unfolding head_cmd all_samples
  Merges-node p {c} {c'} {r} {r'} a b = record {
    counted = omega (arith, a.counted, b.counted, num_nodes-node p c r, num_nodes-node p c' r');
    starts = simp (get_start_time-node, a.starts, b.starts);
    ends = simp (get_end_time-node, a.ends, b.ends);
    sampled = Perm.append_left p.samples (Perm.append a.sampled b.sampled);
    headed = refl;
  }

  pub Merges-first :
      (p : Process V) (r : Forest V) {c c' : Forest V} {k : ℕ}
      → Merges c c' k
      → Merges (node p c r) (node p c' r) k
  Merges-first p r a = record {
    counted = omega (arith, (Merges-node p a (Merges-refl r)).counted);
    starts = (Merges-node p a (Merges-refl r)).starts;
    ends = (Merges-node p a (Merges-refl r)).ends;
    sampled = (Merges-node p a (Merges-refl r)).sampled;
    headed = (Merges-node p a (Merges-refl r)).headed;
  }

  all_samples-append : (f g : Forest V) → all_samples (append f g) ≡ all_samples f ++ all_samples g
  unfolding all_samples append
  all_samples-append nil g = refl
  all_samples-append (node p c r) g = simp (all_samples-append r g, append_assoc)

  -- The samples of a merged process are those of the two.
  pub samples-merge_processes :
      (p q : Process V) → Perm (merge_processes p q).samples (p.samples ++ q.samples)
  unfolding merge_processes
  samples-merge_processes p q =
      sort_by-perm (λ (s : ProcessSample V). s.time) (p.samples ++ q.samples)

  -- What `merge_processes` makes of two processes: one that starts with the earlier and ends with the
  -- later of them, and has the samples of both in the order of their times.
  pub record Covers (p q m : Process V) : Type 0 where
    pub start : m.start_time ≡ min_ℤ p.start_time q.start_time
    pub ending : end_time m ≡ max_ℤ (end_time p) (end_time q)
    pub sampled : Perm m.samples (p.samples ++ q.samples)
    pub sorted : IsSortedBy (λ (s : ProcessSample V). s.time) m.samples

  -- A merge of two processes starts with the earlier and ends with the later of them, and has the
  -- samples of both in the order of their times.
  pub merge_processes-Covers : (p q : Process V) → Covers p q (merge_processes p q)
  merge_processes-Covers p q = record {
    start = start_time-merge_processes p q;
    ending = end_time-merge_processes p q;
    sampled = samples-merge_processes p q;
    sorted =
        unfold merge_processes in
        sort_by-IsSortedBy (λ (s : ProcessSample V). s.time) (p.samples ++ q.samples);
  }

  Perm-shift : (xs ys zs : List (ProcessSample V)) → Perm (xs ++ (ys ++ zs)) (ys ++ (xs ++ zs))
  Perm-shift xs ys zs = simp append_assoc at (Perm.append_right zs (perm_append_comm xs ys))

  -- One merge of two neighbours.
  pub Merges-siblings :
      (p q : Process V) (c d r : Forest V)
      → Merges (node p c (node q d r)) (node (merge_processes p q) (append c d) r) 1
  unfolding head_cmd all_samples
  Merges-siblings p q c d r = record {
    counted = omega (
      arith,
      num_nodes-node p c (node q d r),
      num_nodes-node q d r,
      num_nodes-node (merge_processes p q) (append c d) r,
      num_nodes-append c d,
    );
    starts =
        simp (get_start_time-node, get_start_time-append, start_time-merge_processes)
          (sym (min_ℤ_regroup _ _ _ _ _));
    ends =
        simp (get_end_time-node, get_end_time-append, end_time-merge_processes)
          (sym (max_ℤ_regroup _ _ _ _ _));
    sampled =
        simp (all_samples-append, append_assoc)
          (Perm.trans (Perm.append_right _ (samples-merge_processes p q)) (
            rw append_assoc (
              Perm.append_left p.samples
                (Perm-shift q.samples (all_samples c) (all_samples d ++ all_samples r)))));
    headed = unfold merge_processes in refl;
  }

  -- One merge of a process with its only child.
  pub Merges-run :
      (p q : Process V) (d r : Forest V)
      → Merges (node p (node q d nil) r) (node (merge_processes p q) d r) 1
  unfolding head_cmd all_samples
  Merges-run p q d r = record {
    counted = omega (
      arith,
      num_nodes-node p (node q d nil) r,
      num_nodes-node q d nil,
      num_nodes-node (merge_processes p q) d r,
      num_nodes-nil V,
    );
    starts =
        get_start_time-node (merge_processes p q) d r
        ∙ ap (λ t. min_ℤ t (min_ℤ (get_start_time d) (get_start_time r)))
            (start_time-merge_processes p q)
        ∙ min_ℤ_run p.start_time q.start_time (get_start_time d) (get_start_time r)
        ∙ sym (
            get_start_time-node p (node q d nil) r
            ∙ ap (λ t. min_ℤ p.start_time (min_ℤ t (get_start_time r)))
                (get_start_time-single q d));
    ends =
        get_end_time-node (merge_processes p q) d r
        ∙ ap (λ t. max_ℤ t (max_ℤ (get_end_time d) (get_end_time r))) (end_time-merge_processes p q)
        ∙ max_ℤ_run (end_time p) (end_time q) (get_end_time d) (get_end_time r)
        ∙ sym (
            get_end_time-node p (node q d nil) r
            ∙ ap (λ t. max_ℤ (end_time p) (max_ℤ t (get_end_time r))) (get_end_time-single q d));
    sampled =
        Perm.trans (Perm.append_right _ (samples-merge_processes p q))
          (simp (append_assoc, append-nil) Perm.rfl);
    headed = unfold merge_processes in refl;
  }
