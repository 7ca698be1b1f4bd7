-- ===== src/Trace/Crop/Idle.antt =====
-- Which idle time `crop` finds.
use bootchart.Prelude.{
  ◌≡◌, refl, sym, ap, ◌⊎◌, inl, inr, Bool, true, false, Bool-cases, Option, none, some, List, [],
  ◌∷◌, length, ◌&&◌, arith,
}
use mathlib.Core.Path.{subst}
use bootchart.Prelude.Int.{
  ℤ, pos, ◌+ℤ◌, ◌*ℤ◌, ◌≤ℤ◌, ◌<ℤ◌, ltb_ℤ, leb_ℤ, ltb_ℤ→lt, ltb_ℤ→ge, leb_ℤ→le, int_laws,
}
use bootchart.Prelude.Dict.{int_key}
use bootchart.Trace.Crop.{Point, stretch, sum_load, is_idle_at, is_idle, find_idle}

-- The points before `end'`, and one more if there is one.
pub data IsStretch (end' : ℤ) : List Point → List Point → Type 0 where
  at_end : IsStretch end' [] []
  inside :
      {u : Point} {us w : List Point}
      → u.time <ℤ end'
      → IsStretch end' us w
      → IsStretch end' (u ∷ us) (u ∷ w)
  behind : {u : Point} {us : List Point} → end' ≤ℤ u.time → IsStretch end' (u ∷ us) (u ∷ [])

abbrev pub total : List Point → ℤ
total [] = pos 0
total (u ∷ us) = u.load +ℤ total us

-- From `u` on there is less than a quarter of the load, at once and on the average over the points of
-- 300 after `start`.
abbrev pub IdleAt : ℤ → ℤ → Point → List Point → Type 0
IdleAt full start u us =
    (pos 4 *ℤ u.load <ℤ full)
    × ((w : List Point) × IsStretch (start +ℤ pos 300) us w
        × (pos 4 *ℤ total (u ∷ w) <ℤ full *ℤ pos (length (u ∷ w))))

-- The first point that is not before `start` begins an idle time.
abbrev pub IdleFrom : ℤ → ℤ → List Point → Type 0
IdleFrom full start [] = ⊥
IdleFrom full start (u ∷ us) =
    ((u.time <ℤ start) × IdleFrom full start us) ⊎ ((start ≤ℤ u.time) × IdleAt full start u us)

-- `idle` is the time of the first CPU sample from `start` on at which both logs are idle, or there is
-- no such sample.
abbrev pub FirstIdle : ℤ → List Point → ℤ → List Point → Option ℤ → Type 0
FirstIdle full disk start [] idle = idle ≡ none
FirstIdle full disk start (u ∷ us) idle =
    ((u.time <ℤ start) × FirstIdle full disk start us idle)
    ⊎ (((start ≤ℤ u.time)
          × (IdleAt full u.time u us × IdleFrom full u.time disk)
          × (idle ≡ some u.time))
        ⊎ ((start ≤ℤ u.time)
            × ¬ (IdleAt full u.time u us × IdleFrom full u.time disk)
            × FirstIdle full disk start us idle))

sum_load-total : (us : List Point) → sum_load us ≡ total us
unfolding sum_load
sum_load-total [] = refl
sum_load-total (u ∷ us) = ap (λ n. u.load +ℤ n) (sum_load-total us)

stretch-IsStretch :
    (start : ℤ) (us : List Point) → IsStretch (start +ℤ pos 300) us (stretch start us)
unfolding stretch
stretch-IsStretch start [] = at_end
stretch-IsStretch start (u ∷ us) = elim (Bool-cases (ltb_ℤ u.time (start +ℤ pos 300))) [
  | inl e ↦ rw e (inside (ltb_ℤ→lt u.time (start +ℤ pos 300) e) (stretch-IsStretch start us))
  | inr e ↦ rw e (behind (ltb_ℤ→ge u.time (start +ℤ pos 300) e))
]

not_both : (a b : ℤ) → a <ℤ b → b ≤ℤ a → ⊥
not_both a b h k = omega (int_laws, h, k)

IsStretch-unique :
    (end' : ℤ) {us v w : List Point} → IsStretch end' us v → IsStretch end' us w → v ≡ w
IsStretch-unique end' at_end at_end = refl
IsStretch-unique end' (inside {u} h r) (inside k s) = ap (◌∷◌ u) (IsStretch-unique end' r s)
IsStretch-unique end' (inside {u} h r) (behind k) = absurd (not_both u.time end' h k)
IsStretch-unique end' (behind {u} h) (inside k s) = absurd (not_both u.time end' k h)
IsStretch-unique end' (behind h) (behind k) = refl

-- A test, and what it decides.
abbrev pub Decides : Bool → Type 0 → Type 0
Decides b P = ((b ≡ true) × P) ⊎ ((b ≡ false) × ¬ P)

lt_of : (a b : ℤ) → ltb_ℤ a b ≡ true → a <ℤ b
lt_of a b e = ltb_ℤ→lt a b e

not_lt : (a b : ℤ) → ltb_ℤ a b ≡ false → a <ℤ b → ⊥
not_lt a b e h = not_both a b h (ltb_ℤ→ge a b e)

gt_of : (a b : ℤ) → leb_ℤ a b ≡ false → b <ℤ a
gt_of a b e = ground (arith, e)

is_idle_at-Decides :
    (full start : ℤ) (u : Point) (us : List Point)
    → Decides (is_idle_at full start u us) (IdleAt full start u us)
unfolding is_idle_at
is_idle_at-Decides full start u us =
    let w = stretch start us in
    let load = pos 4 *ℤ u.load in
    let sum = pos 4 *ℤ sum_load (u ∷ w) in
    let most = full *ℤ pos (length (u ∷ w)) in
    let same : sum_load (u ∷ w) ≡ total (u ∷ w) = sum_load-total (u ∷ w) in
    elim (Bool-cases (leb_ℤ full load)) [
      | inl e ↦
          inr (
            rw e refl,
            λ (h : IdleAt full start u us). not_both load full h.0 (leb_ℤ→le full load e),
          )
      | inr e ↦ elim (Bool-cases (ltb_ℤ sum most)) [
        | inl l ↦ inl (
          rw (e, l) refl,
          (
            gt_of full load e,
            (
              w,
              stretch-IsStretch start us,
              subst (λ n. pos 4 *ℤ n <ℤ most) same (lt_of sum most l),
            ),
          ),
        )
        | inr l ↦ inr (
          rw (e, l) refl,
          λ (h : IdleAt full start u us).
              let (v, is_w, less) = h.1 in
              let v_is : v ≡ w =
                IsStretch-unique (start +ℤ pos 300) is_w (stretch-IsStretch start us) in
              not_lt sum most l (
                subst (λ n. pos 4 *ℤ n <ℤ most) (sym same)
                  (subst (λ x. pos 4 *ℤ total (u ∷ x) <ℤ full *ℤ pos (length (u ∷ x))) v_is less)),
        )
      ]
    ]

-- The search passes over a point before `start`, and tests the first one that is not.
skip :
    (full start : ℤ) (u : Point) (us : List Point) (b : Bool)
    → u.time <ℤ start
    → Decides b (IdleFrom full start us)
    → Decides b (IdleFrom full start (u ∷ us))
skip full start u us b early (inl (e, h)) = inl (e, inl (early, h))
skip full start u us b early (inr (e, none_there)) = inr (
  e,
  λ (h : IdleFrom full start (u ∷ us)). elim h [
    | inl (e', rest) ↦ none_there rest
    | inr (late, idle) ↦ not_both u.time start early late
  ],
)

here :
    (full start : ℤ) (u : Point) (us : List Point) (b : Bool)
    → start ≤ℤ u.time
    → Decides b (IdleAt full start u us)
    → Decides b (IdleFrom full start (u ∷ us))
here full start u us b late (inl (e, h)) = inl (e, inr (late, h))
here full start u us b late (inr (e, busy)) = inr (
  e,
  λ (h : IdleFrom full start (u ∷ us)). elim h [
    | inl (early, rest) ↦ not_both u.time start early late
    | inr (late', idle) ↦ busy idle
  ],
)

is_idle-Decides :
    (full start : ℤ) (us : List Point) → Decides (is_idle full us start) (IdleFrom full start us)
unfolding is_idle
is_idle-Decides full start [] = inr (refl, λ h. h)
is_idle-Decides full start (u ∷ us) = elim (Bool-cases (ltb_ℤ u.time start)) [
  | inl e ↦
      let early = lt_of u.time start e in
      rw e (skip full start u us (is_idle full us start) early (is_idle-Decides full start us))
  | inr e ↦
      let late = ltb_ℤ→ge u.time start e in
      rw e (
        here full start u us (is_idle_at full start u us) late (is_idle_at-Decides full start u us))
]

-- Two tests at once.
both : {P Q : Type 0} (b c : Bool) → Decides b P → Decides c Q → Decides (b && c) (P × Q)
both b c (inl (e, p)) (inl (f, q)) = inl (rw (e, f) refl, (p, q))
both b c (inl (e, p)) (inr (f, q)) = inr (rw (e, f) refl, λ h. q h.1)
both b c (inr (e, p)) d = inr (rw e refl, λ h. p h.0)

pub find_idle-FirstIdle :
    (full : ℤ) (disk : List Point) (start : ℤ) (us : List Point)
    → FirstIdle full disk start us (find_idle full disk start us)
unfolding find_idle
find_idle-FirstIdle full disk start [] = refl
find_idle-FirstIdle full disk start (u ∷ us) = elim (Bool-cases (ltb_ℤ u.time start)) [
  | inl e ↦ rw e (inl (lt_of u.time start e, find_idle-FirstIdle full disk start us))
  | inr e ↦
      let late = ltb_ℤ→ge u.time start e in
      elim (both (is_idle_at full u.time u us) (is_idle full disk u.time)
        (is_idle_at-Decides full u.time u us) (is_idle-Decides full u.time disk)) [
          | inl (f, idle) ↦ rw (e, f) (inr (inl (late, idle, refl)))
          | inr (f, busy) ↦
              rw (e, f) (inr (inr (late, busy, find_idle-FirstIdle full disk start us)))
        ]
]
