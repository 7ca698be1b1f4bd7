-- ===== src/Draw/Rows/Laws.antt =====
-- Every process has a row of its own.
use bootchart.Prelude.{
  ℕ, suc, ◌+◌, ◌*◌, ◌<◌, ◌≡◌, refl, sym, ap, ap₂, ◌∙◌, inl, inr, false, List, [], ◌∷◌, ◌++◌, length,
  ltb, ltb→lt, if◌then◌else◌, Bool-cases, arith,
}
use bootchart.Samples.{Process}
use bootchart.Tree.Forest.{
  length-processes, Forest, nil, node, num_nodes, num_nodes-node, num_nodes-nil, processes,
}
use bootchart.Draw.Rows.{Row, row_of, draw_children, draw_process, draw_roots}

-- The rows that are not below the clip.
unfoldable pub visible : ℕ → List Row → List Row
visible bottom [] = []
visible bottom (r ∷ rs) = if ltb bottom r.y then visible bottom rs else r ∷ visible bottom rs

visible-append :
    (bottom : ℕ) (rs ss : List Row)
    → visible bottom (rs ++ ss) ≡ visible bottom rs ++ visible bottom ss
unfolding visible
visible-append bottom [] ss = refl
visible-append bottom (r ∷ rs) ss = ground (arith, visible-append bottom rs ss)

visible-visible :
    (bottom : ℕ) (rs : List Row) → visible bottom (visible bottom rs) ≡ visible bottom rs
unfolding visible
visible-visible bottom [] = refl
visible-visible bottom (r ∷ rs) = ground (arith, visible-visible bottom rs)

visible-shown :
    (bottom : ℕ) (r : Row) (rs : List Row)
    → ltb bottom r.y ≡ false
    → visible bottom (r ∷ rs) ≡ r ∷ visible bottom rs
unfolding visible
visible-shown bottom r rs h = rw h refl

visible-cons :
    (bottom : ℕ) (r : Row) (rs ss : List Row)
    → visible bottom rs ≡ visible bottom ss
    → visible bottom (r ∷ rs) ≡ visible bottom (r ∷ ss)
unfolding visible
visible-cons bottom r rs ss h = ap (λ x. if ltb bottom r.y then x else r ∷ x) h

below_one : (h y n : ℕ) → y + h + h * n ≡ y + h * suc n
below_one h y n = omega arith

module _ {V : Type 0} where
  -- One row below the other, `proc_h` apart.
  unfoldable pub rows_from : ℕ → ℕ → List (Process V) → List Row
  rows_from proc_h y [] = []
  rows_from proc_h y (p ∷ ps) = row_of p y ∷ rows_from proc_h (y + proc_h) ps

  rows_from-append :
      (proc_h y : ℕ) (ps qs : List (Process V))
      → rows_from proc_h y (ps ++ qs)
        ≡ rows_from proc_h y ps ++ rows_from proc_h (y + proc_h * length ps) qs
  unfolding rows_from
  rows_from-append proc_h y [] qs = ap (λ z. rows_from proc_h z qs) (omega arith)
  rows_from-append proc_h y (p ∷ ps) qs = ap (◌∷◌ (row_of p y)) (
      rows_from-append proc_h (y + proc_h) ps qs
      ∙ ap (λ z. rows_from proc_h (y + proc_h) ps ++ rows_from proc_h z qs)
          (below_one proc_h y (length ps)))

  rows_from-hidden :
      (proc_h bottom y : ℕ) (ps : List (Process V))
      → bottom < y
      → visible bottom (rows_from proc_h y ps) ≡ []
  unfolding rows_from visible
  rows_from-hidden proc_h bottom y [] h = refl
  rows_from-hidden proc_h bottom y (p ∷ ps) h =
      ground (arith, rows_from-hidden proc_h bottom (y + proc_h) ps (omega arith))

  -- Where the rows behind a process and its descendants begin.
  next-row :
      (h y : ℕ) (p : Process V) (c : Forest V)
      → y + h * num_nodes (node p c nil) ≡ y + h + h * length (processes c)
  next-row h y p c =
      ap (λ n. y + h * n)
        (omega (arith, num_nodes-node p c nil, num_nodes-nil V, length-processes c))
      ∙ sym (below_one h y (length (processes c)))

  rows_from-node :
      (h y : ℕ) (p : Process V) (c r : Forest V)
      → rows_from h y (processes (node p c r))
        ≡ row_of p y
          ∷ (rows_from h (y + h) (processes c)
              ++ rows_from h (y + h * num_nodes (node p c nil)) (processes r))
  unfolding rows_from processes
  rows_from-node h y p c r = ap (◌∷◌ (row_of p y)) (
      rows_from-append h (y + h) (processes c) (processes r)
      ∙ ap (λ z. rows_from h (y + h) (processes c) ++ rows_from h z (processes r))
          (sym (next-row h y p c)))

  -- Below a process that is drawn, exactly the descendants are drawn whose rows are not below the clip,
  -- each in its own row: the one that it has when all of them stand one below the other, a process
  -- before its children.
  pub draw_children-visible :
      (h bottom y : ℕ) (f : Forest V)
      → draw_children h bottom y f ≡ visible bottom (rows_from h y (processes f))
  unfolding draw_children
  draw_children-visible h bottom y nil = unfold processes rows_from visible in refl
  draw_children-visible h bottom y (node p c r) = elim (Bool-cases (ltb bottom y)) [
    | inl e ↦ rw e (sym (rows_from-hidden h bottom y (processes (node p c r)) (ltb→lt bottom y e)))
    | inr e ↦ rw e (
        ap (◌∷◌ (row_of p y)) (
          ap₂ ◌++◌ (draw_children-visible h bottom (y + h) c)
            (draw_children-visible h bottom (y + h * num_nodes (node p c nil)) r)
          ∙ sym (visible-append bottom _ _))
        ∙ sym (visible-shown bottom (row_of p y) _ e)
        ∙ ap (visible bottom) (sym (rows_from-node h y p c r)))
  ]

  draw_process-visible :
      (h bottom y : ℕ) (p : Process V) (c : Forest V)
      → visible bottom (draw_process h bottom y p c)
        ≡ visible bottom (row_of p y ∷ rows_from h (y + h) (processes c))
  unfolding draw_process
  draw_process-visible h bottom y p c = rw (draw_children-visible h bottom (y + h) c) (
      visible-cons bottom (row_of p y) _ _
        (visible-visible bottom (rows_from h (y + h) (processes c))))

  -- In the whole chart the processes that are drawn above the lower edge of the clip are exactly those
  -- whose rows are there, each drawn once and in its own row.
  pub draw_roots-visible :
      (h bottom y : ℕ) (f : Forest V)
      → visible bottom (draw_roots h bottom y f) ≡ visible bottom (rows_from h y (processes f))
  unfolding draw_roots
  draw_roots-visible h bottom y nil = unfold processes rows_from in refl
  draw_roots-visible h bottom y (node p c r) =
      visible-append bottom (draw_process h bottom y p c)
        (draw_roots h bottom (y + h * num_nodes (node p c nil)) r)
      ∙ ap₂ ◌++◌ (draw_process-visible h bottom y p c)
          (draw_roots-visible h bottom (y + h * num_nodes (node p c nil)) r)
      ∙ sym (visible-append bottom (row_of p y ∷ rows_from h (y + h) (processes c)) _)
      ∙ ap (visible bottom) (sym (rows_from-node h y p c r))
