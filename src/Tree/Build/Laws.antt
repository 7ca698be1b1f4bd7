-- ===== src/Tree/Build/Laws.antt =====
-- What `build` and `update_ppids_for_daemons` make of a list of processes.
use bootchart.Prelude.{
  ◌≡◌, refl, sym, ap, ◌∙◌, inl, inr, none, some, List, [], ◌∷◌, ◌++◌, append_assoc, append-nil,
  if◌then◌else◌, Bool-cases, Option-cases,
}
use bootchart.Prelude.Int.{ℤ, eqb_ℤ}
use bootchart.Samples.{Process}
use bootchart.Tree.Build.{Lists, place, place_all, build}

module _ {V : Type 0} where
  -- The pid of `p` if it is a root, and if it is a child of `k`.
  unfoldable pub own_root : Process V → List ℤ
  own_root p = elim p.parent [ none ↦ p.pid ∷ [] | some k ↦ [] ]

  unfoldable pub own_child : ℤ → Process V → List ℤ
  own_child k p = elim p.parent [ none ↦ [] | some j ↦ if eqb_ℤ j k then p.pid ∷ [] else [] ]

  -- The pids of the processes without a parent, in the order of the list.
  unfoldable pub roots : List (Process V) → List ℤ
  roots [] = []
  roots (p ∷ ps) = own_root p ++ roots ps

  -- The pids of the processes whose parent is `k`, in the order of the list.
  unfoldable pub children : ℤ → List (Process V) → List ℤ
  children k [] = []
  children k (p ∷ ps) = own_child k p ++ children k ps

  place-lists :
      (l : Lists) (p : Process V) (k : ℤ)
      → ((place l p).process_tree ≡ l.process_tree ++ own_root p)
        × ((place l p).child_list k ≡ l.child_list k ++ own_child k p)
  unfolding place own_root own_child
  place-lists l p k = elim (Option-cases p.parent) [
    | inl e ↦ rw (e, place, own_root, own_child) (refl, sym (append-nil (l.child_list k)))
    | inr (j, e) ↦ elim (Bool-cases (eqb_ℤ j k)) [
      | inl h ↦ rw (e, place, own_root, own_child, h) (sym (append-nil l.process_tree), refl)
      | inr h ↦
          rw (e, place, own_root, own_child, h)
            (sym (append-nil l.process_tree), sym (append-nil (l.child_list k)))
    ]
  ]

  place_all-lists :
      (l : Lists) (procs : List (Process V)) (k : ℤ)
      → ((place_all l procs).process_tree ≡ l.process_tree ++ roots procs)
        × ((place_all l procs).child_list k ≡ l.child_list k ++ children k procs)
  unfolding place_all roots children
  place_all-lists l [] k = (sym (append-nil l.process_tree), sym (append-nil (l.child_list k)))
  place_all-lists l (p ∷ ps) k =
      let here = place-lists l p k in
      let rest = place_all-lists (place l p) ps k in
      (
        rest.0
            ∙ ap (λ x. x ++ roots ps) here.0
            ∙ append_assoc l.process_tree (own_root p) (roots ps),
        rest.1
            ∙ ap (λ x. x ++ children k ps) here.1
            ∙ append_assoc (l.child_list k) (own_child k p) (children k ps),
      )

  -- After `build` the roots are the processes without a parent, and every child list is extended by
  -- the processes with that parent, both in the order of the process list.
  pub build-lists :
      (l : Lists) (procs : List (Process V)) (k : ℤ)
      → ((build l procs).process_tree ≡ roots procs)
        × ((build l procs).child_list k ≡ l.child_list k ++ children k procs)
  unfolding build
  build-lists l procs k = place_all-lists (record l { process_tree = [] }) procs k
