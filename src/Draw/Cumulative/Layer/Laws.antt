-- ===== src/Draw/Cumulative/Layer/Laws.antt =====
-- A layer on a stack of layers stands on the one below it.
use bootchart.Prelude.{
  ◌≡◌, refl, sym, ap, ◌∙◌, inl, inr, true, false, none, some, [], ◌∷◌, ◌++◌, Bool-cases,
  Option-cases, ◌⊎◌,
}
use bootchart.Prelude.Results.{ok, ◌>>=◌}
use bootchart.Prelude.Int.{ℤ, pos, ◌+ℤ◌, ◌-ℤ◌, ◌*ℤ◌, ◌≤ℤ◌, eqb_ℤ, eqb_ℤ_iff, int_laws, parts_of_eq}
use bootchart.Prelude.Ratio.{ratio, divide, round_ratio, ceil_ratio}
use bootchart.Prelude.Dict.{Dict, int_key, get, put}
use bootchart.Draw.Clip.{Rect}
use bootchart.Draw.Cumulative.Layer.{
  Scale, to_pixels, Seg, x_of, follow_below, follow_row, draw_trailing, put_row, render_time,
}

-- The height of a layer at a time: that of its sample, or the height `c` before it.
unfoldable pub height_at : Scale → Dict ℤ ℤ → ℤ → ℤ → ℤ
unfolding to_pixels round_ratio
height_at scale row c time = elim (get row time) [
  | none ↦ c
  | some v ↦ round_ratio (to_pixels scale v)
]

-- Where the segment at a time of which the layer below is at `b` stands.
abbrev pub At : Dict ℤ ℤ → Seg → ℤ → Type 0
At below s b = (get below s.last_time ≡ some b) × (s.y ≡ b -ℤ s.cuml) × (b ≤ℤ s.last_below)

module _ (scale : Scale) (has_duration : eqb_ℤ scale.duration (pos 0) ≡ false)
    (below : Dict ℤ ℤ) where
  divide_ok : (a : ℤ) → divide a scale.duration ≡ ok (ratio a scale.duration)
  unfolding divide
  divide_ok a = rw has_duration refl

  pub x_of_ok : (time : ℤ) → (x : ℤ) × (x_of scale time ≡ ok x)
  unfolding x_of
  x_of_ok time =
      let q = ratio ((time -ℤ scale.start_time) *ℤ scale.bounds.w) scale.duration in
      (
        scale.bounds.x +ℤ round_ratio q,
        rw (divide_ok ((time -ℤ scale.start_time) *ℤ scale.bounds.w)) refl,
      )

  pub draw_trailing_ok :
      (time bp b : ℤ) (s : Seg)
      → get below s.last_time ≡ some bp
      → get below time ≡ some b
      → (s' : Seg) × ((draw_trailing scale below time s >>= λ s'. ok (put_row time s')) ≡ ok s')
        × (get below s'.last_time ≡ some b)
        × (s'.y ≡ b -ℤ s'.cuml)
        × (s'.last_below ≡ s.last_below)
        × (s'.cuml ≡ s.cuml)
        × (s'.row ≡ put s.row time (b -ℤ s.cuml))
  unfolding draw_trailing
  draw_trailing_ok time bp b s at_last at_time =
      let (x, at_x) = x_of_ok s.last_time in
      let q = ratio ((time -ℤ s.last_time) *ℤ scale.bounds.w) scale.duration in
      let rect : Rect = record {
        x = x;
        y = bp -ℤ s.last_cuml;
        w = ceil_ratio q +ℤ pos 1;
        h = s.last_cuml;
      } in
      let s' : Seg = record s {
        last_time = time;
        y = b -ℤ s.cuml;
        row = put s.row time (b -ℤ s.cuml);
        rectangles = s.rectangles ++ rect ∷ [];
      } in
      (
        s',
        rw (divide_ok ((time -ℤ s.last_time) *ℤ scale.bounds.w), at_x, at_last, at_time) refl,
        at_time,
        refl,
        refl,
        refl,
        refl,
      )

  draw_trailing-At :
      (time bp b : ℤ) (s : Seg)
      → get below s.last_time ≡ some bp
      → get below time ≡ some b
      → b ≤ℤ s.last_below
      → (s' : Seg) × ((draw_trailing scale below time s >>= λ s'. ok (put_row time s')) ≡ ok s')
        × At below s' b
        × (s'.cuml ≡ s.cuml)
        × (s'.row ≡ put s.row time (b -ℤ s.cuml))
  draw_trailing-At time bp b s at_last at_time lower =
      let (s', drawn, at, y_is, kept, same, row) = draw_trailing_ok time bp b s at_last at_time in
      (s', drawn, (at, y_is, omega (int_laws, parts_of_eq kept)), same, row)

  pub follow_below-cases :
      (time bp b : ℤ) (s : Seg)
      → get below s.last_time ≡ some bp
      → get below time ≡ some b
      → ((b ≡ s.last_below) × (follow_below below time s ≡ ok (false, s)))
        ⊎ (follow_below below time s ≡ ok (true, record s { last_below = bp; last_cuml = s.cuml }))
  unfolding follow_below
  follow_below-cases time bp b s at_last at_time = elim (Bool-cases (eqb_ℤ b s.last_below)) [
    | inl e ↦ inl ((eqb_ℤ_iff b s.last_below).0 e, rw (at_time, e) refl)
    | inr e ↦ inr (rw (at_time, e, at_last) refl)
  ]

  pub follow_row-cases :
      (time : ℤ) (s : Seg)
      → ((follow_row scale time s ≡ (false, s)) × (height_at scale s.row s.cuml time ≡ s.cuml))
        ⊎ (follow_row scale time s
            ≡ (true, record s { last_cuml = s.cuml; cuml = height_at scale s.row s.cuml time }))
  unfolding follow_row height_at
  follow_row-cases time s = elim (Option-cases (get s.row time)) [
    | inl e ↦ inl (rw (follow_row, e) refl, rw (height_at, e) refl)
    | inr (v, e) ↦ elim (Bool-cases (eqb_ℤ (round_ratio (to_pixels scale v)) s.cuml)) [
      | inl b ↦ inl (
        rw (follow_row, e, b) refl,
        rw (height_at, e) ((eqb_ℤ_iff (round_ratio (to_pixels scale v)) s.cuml).0 b),
      )
      | inr b ↦ inr (rw (follow_row, height_at, e, b) refl)
    ]
  ]

  pub render_time-At :
      (time bp b : ℤ) (s : Seg)
      → At below s bp
      → get below time ≡ some b
      → b ≤ℤ bp
      → (s' : Seg) × (render_time scale below s time ≡ ok s')
        × At below s' b
        × (s'.cuml ≡ height_at scale s.row s.cuml time)
        × (s'.row ≡ put s.row time (b -ℤ s'.cuml))
  unfolding render_time follow_below follow_row height_at
  render_time-At time bp b s at at_time lower =
      let (at_last, y_is, under) = at in
      let height = height_at scale s.row s.cuml time in
      elim (follow_below-cases time bp b s at_last at_time) [
        | inl (still, quiet) ↦ elim (follow_row-cases time s) [
          | inl (e, h) ↦
              let here : bp ≡ b = omega (int_laws, parts_of_eq still) in
              let y_here : s.y ≡ b -ℤ s.cuml = rw here at y_is in
              (
                put_row time s,
                rw (quiet, e) refl,
                (rw here at at_last, y_here, omega (int_laws, parts_of_eq still)),
                sym h,
                ap (λ y. put s.row time y) y_here,
              )
          | inr e ↦
              let grown : Seg = record s { last_cuml = s.cuml; cuml = height } in
              let (s', drawn, at', same, row) =
                draw_trailing-At time bp b grown at_last at_time
                  (omega (int_laws, parts_of_eq still)) in
              (
                s',
                rw (quiet, e) drawn,
                at',
                same,
                row ∙ ap (λ c. put s.row time (b -ℤ c)) (sym same),
              )
        ]
        | inr moved ↦
            let s2 : Seg = record s { last_below = bp; last_cuml = s.cuml } in
            elim (follow_row-cases time s2) [
              | inl (e, h) ↦
                  let (s', drawn, at', same, row) =
                    draw_trailing-At time bp b s2 at_last at_time lower in
                  (
                    s',
                    rw (moved, e) drawn,
                    at',
                    same ∙ sym h,
                    row ∙ ap (λ c. put s.row time (b -ℤ c)) (sym same),
                  )
              | inr e ↦
                  let grown : Seg = record s2 { last_cuml = s.cuml; cuml = height } in
                  let (s', drawn, at', same, row) =
                    draw_trailing-At time bp b grown at_last at_time lower in
                  (
                    s',
                    rw (moved, e) drawn,
                    at',
                    same,
                    row ∙ ap (λ c. put s.row time (b -ℤ c)) (sym same),
                  )
            ]
      ]
