-- ===== src/Tree/Times.antt =====
-- The start and the end of a forest as one minimum and one maximum over its processes.
use bootchart.Prelude.{◌≡◌, refl, sym, ap, ap₂, append_assoc, ◌∙◌, List, [], ◌∷◌, ◌++◌, arith}
use bootchart.Prelude.Int.{
  ℤ, pos, negsuc, ◌≤ℤ◌, min_ℤ, max_ℤ, min_ℤ_assoc, min_ℤ_comm, max_ℤ_assoc, max_ℤ_comm,
  min_ℤ-eq_left, max_ℤ-eq_left, min_ℤ-le_right, max_ℤ-ge_right, +ℤ_sub,
}
use bootchart.Samples.{Process, end_time, merge_processes}
use bootchart.Tree.Forest.{Forest, nil, node, append, processes, get_start_time, get_end_time}

abbrev pub latest_start : ℤ
latest_start = pos 100000000

abbrev pub earliest_end : ℤ
earliest_end = negsuc 99999999

module _ {V : Type 0} where
  -- The smallest start among some processes, and at most `latest_start`.
  unfoldable pub first_start : List (Process V) → ℤ
  first_start [] = latest_start
  first_start (p ∷ ps) = min_ℤ p.start_time (first_start ps)

  -- The largest end among some processes, and at least `earliest_end`.
  unfoldable pub last_end : List (Process V) → ℤ
  last_end [] = earliest_end
  last_end (p ∷ ps) = max_ℤ (end_time p) (last_end ps)

  get_start_time-le : (f : Forest V) → get_start_time f ≤ℤ latest_start
  unfolding get_start_time
  get_start_time-le nil = omega arith
  get_start_time-le (node p c nil) = omega (arith, min_ℤ-le_right, get_start_time-le c)
  get_start_time-le (node p c (node q d s)) =
      omega (arith, min_ℤ-le_right, get_start_time-le (node q d s))

  get_end_time-ge : (f : Forest V) → earliest_end ≤ℤ get_end_time f
  unfolding get_end_time
  get_end_time-ge nil = omega arith
  get_end_time-ge (node p c nil) = omega (arith, max_ℤ-ge_right, get_end_time-ge c)
  get_end_time-ge (node p c (node q d s)) =
      omega (arith, max_ℤ-ge_right, get_end_time-ge (node q d s))

  -- One equation for both clauses: the bound of an empty list changes no minimum.
  pub get_start_time-node :
      (p : Process V) (c r : Forest V)
      → get_start_time (node p c r)
        ≡ min_ℤ p.start_time (min_ℤ (get_start_time c) (get_start_time r))
  unfolding get_start_time
  get_start_time-node p c nil =
      ap (min_ℤ p.start_time)
        (sym (min_ℤ-eq_left (get_start_time c) latest_start (get_start_time-le c)))
  get_start_time-node p c (node q d s) = min_ℤ_assoc _ _ _

  pub get_end_time-node :
      (p : Process V) (c r : Forest V)
      → get_end_time (node p c r) ≡ max_ℤ (end_time p) (max_ℤ (get_end_time c) (get_end_time r))
  unfolding get_end_time
  get_end_time-node p c nil =
      ap (max_ℤ (end_time p))
        (sym (max_ℤ-eq_left (get_end_time c) earliest_end (get_end_time-ge c)))
  get_end_time-node p c (node q d s) = max_ℤ_assoc _ _ _

  pub get_start_time-single :
      (p : Process V) (c : Forest V)
      → get_start_time (node p c nil) ≡ min_ℤ p.start_time (get_start_time c)
  unfolding get_start_time
  get_start_time-single p c = refl

  pub get_end_time-single :
      (p : Process V) (c : Forest V)
      → get_end_time (node p c nil) ≡ max_ℤ (end_time p) (get_end_time c)
  unfolding get_end_time
  get_end_time-single p c = refl

  first_start-le : (ps : List (Process V)) → first_start ps ≤ℤ latest_start
  unfolding first_start
  first_start-le [] = omega arith
  first_start-le (p ∷ ps) = omega (arith, min_ℤ-le_right, first_start-le ps)

  last_end-ge : (ps : List (Process V)) → earliest_end ≤ℤ last_end ps
  unfolding last_end
  last_end-ge [] = omega arith
  last_end-ge (p ∷ ps) = omega (arith, max_ℤ-ge_right, last_end-ge ps)

  first_start-append :
      (ps qs : List (Process V)) → first_start (ps ++ qs) ≡ min_ℤ (first_start ps) (first_start qs)
  unfolding first_start
  first_start-append [] qs =
      sym (min_ℤ_comm latest_start _ ∙ min_ℤ-eq_left _ latest_start (first_start-le qs))
  first_start-append (p ∷ ps) qs =
      ap (min_ℤ p.start_time) (first_start-append ps qs) ∙ sym (min_ℤ_assoc _ _ _)

  last_end-append :
      (ps qs : List (Process V)) → last_end (ps ++ qs) ≡ max_ℤ (last_end ps) (last_end qs)
  unfolding last_end
  last_end-append [] qs =
      sym (max_ℤ_comm earliest_end _ ∙ max_ℤ-eq_left _ earliest_end (last_end-ge qs))
  last_end-append (p ∷ ps) qs =
      ap (max_ℤ (end_time p)) (last_end-append ps qs) ∙ sym (max_ℤ_assoc _ _ _)

  -- `get_start_time` is the minimum of 100000000 and the starts of all the processes, at any depth.
  get_start_time-processes : (f : Forest V) → get_start_time f ≡ first_start (processes f)
  unfolding processes first_start
  get_start_time-processes nil = unfold get_start_time in refl
  get_start_time-processes (node p c r) =
      get_start_time-node p c r
      ∙ ap (min_ℤ p.start_time) (
          ap₂ min_ℤ (get_start_time-processes c) (get_start_time-processes r)
          ∙ sym (first_start-append (processes c) (processes r)))

  -- `get_end_time` is the maximum of -100000000 and the ends of all the processes, at any depth.
  get_end_time-processes : (f : Forest V) → get_end_time f ≡ last_end (processes f)
  unfolding processes last_end
  get_end_time-processes nil = unfold get_end_time in refl
  get_end_time-processes (node p c r) =
      get_end_time-node p c r
      ∙ ap (max_ℤ (end_time p)) (
          ap₂ max_ℤ (get_end_time-processes c) (get_end_time-processes r)
          ∙ sym (last_end-append (processes c) (processes r)))

  -- `get_start_time` and `get_end_time` of a tree are the minimum of 100000000 and the starts, and the
  -- maximum of -100000000 and the ends, of all its processes at any depth.
  pub get_times-processes :
      (f : Forest V)
      → (get_start_time f ≡ first_start (processes f)) × (get_end_time f ≡ last_end (processes f))
  get_times-processes f = (get_start_time-processes f, get_end_time-processes f)

  pub processes-append : (f g : Forest V) → processes (append f g) ≡ processes f ++ processes g
  unfolding processes append
  processes-append nil g = refl
  processes-append (node p c r) g =
      ap (λ ps. p ∷ (processes c ++ ps)) (processes-append r g)
      ∙ ap (◌∷◌ p) (sym (append_assoc (processes c) (processes r) (processes g)))

  pub get_start_time-append :
      (f g : Forest V) → get_start_time (append f g) ≡ min_ℤ (get_start_time f) (get_start_time g)
  get_start_time-append f g = simp (get_start_time-processes, processes-append, first_start-append)

  pub get_end_time-append :
      (f g : Forest V) → get_end_time (append f g) ≡ max_ℤ (get_end_time f) (get_end_time g)
  get_end_time-append f g = simp (get_end_time-processes, processes-append, last_end-append)

  -- A merge covers both runs: it starts with the earlier one and ends with the later one.
  pub end_time-merge_processes :
      (p q : Process V) → end_time (merge_processes p q) ≡ max_ℤ (end_time p) (end_time q)
  unfolding end_time merge_processes
  end_time-merge_processes p q = +ℤ_sub _ _

  pub start_time-merge_processes :
      (p q : Process V) → (merge_processes p q).start_time ≡ min_ℤ p.start_time q.start_time
  unfolding merge_processes
  start_time-merge_processes p q = refl
