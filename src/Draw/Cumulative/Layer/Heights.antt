-- ===== src/Draw/Cumulative/Layer/Heights.antt =====
-- Layers as heights above one another, and what the loop over the times makes of them.
use mathlib.Core.Path.{subst}
use bootchart.Prelude.{◌≡◌, refl, sym, ap, ◌∙◌, false, some, List, [], ◌∷◌, ◌++◌, arith}
use bootchart.Prelude.Results.{ok}
use bootchart.Prelude.Int.{ℤ, pos, ◌-ℤ◌, ◌≤ℤ◌, eqb_ℤ, eqb_ℤ_iff, int_laws, parts_of_eq}
use bootchart.Prelude.Dict.{Dict, int_key, get, put, get-put}
use bootchart.Draw.Clip.{Rect}
use bootchart.Draw.Cumulative.Layer.{Scale, Seg, render_times, start_seg, draw_last, render_layer}
use bootchart.Draw.Cumulative.Layer.Laws.{height_at, At, x_of_ok, render_time-At}

-- Every time has a place in the layer, and from left to right none is below the one before (the `y` axis
-- points down).
abbrev pub Stacked : Dict ℤ ℤ → ℤ → List ℤ → Type 0
Stacked below b [] = Unit
Stacked below b (t ∷ ts) = (b' : ℤ) × (get below t ≡ some b') × (b' ≤ℤ b) × Stacked below b' ts

abbrev pub Without : ℤ → List ℤ → Type 0
Without t [] = Unit
Without t (u ∷ us) = (eqb_ℤ t u ≡ false) × Without t us

-- No time occurs twice.
abbrev pub Unrepeated : List ℤ → Type 0
Unrepeated [] = Unit
Unrepeated (t ∷ ts) = Without t ts × Unrepeated ts

module _ (scale : Scale) (below row : Dict ℤ ℤ) where
  -- At every time the new layer is the height of the row above the layer below, where the height before
  -- the first time is `c`.
  abbrev pub StandsOn : Dict ℤ ℤ → ℤ → List ℤ → Type 0
  StandsOn above c [] = Unit
  StandsOn above c (t ∷ ts) =
      (b : ℤ) × (get below t ≡ some b)
      × (get above t ≡ some (b -ℤ height_at scale row c t))
      × StandsOn above (height_at scale row c t) ts

  -- The heights never sink.
  abbrev pub HeightsRise : ℤ → List ℤ → Type 0
  HeightsRise c [] = Unit
  HeightsRise c (t ∷ ts) = (c ≤ℤ height_at scale row c t) × HeightsRise (height_at scale row c t) ts

  -- A layer that rises is the ground of the next layer.
  StandsOn-Stacked :
      (above : Dict ℤ ℤ) (b c : ℤ) (times : List ℤ)
      → Stacked below b times
      → StandsOn above c times
      → HeightsRise c times
      → Stacked above (b -ℤ c) times
  StandsOn-Stacked above b c [] h on rise = tt
  StandsOn-Stacked above b c (t ∷ ts) (b', at_b, lower, later) (d, at_d, at_above, on) (up, rise) =
      let c' = height_at scale row c t in
      let same : b' ≡ d = cc in
      let rest : Stacked above (b' -ℤ c') ts = StandsOn-Stacked above b' c' ts later on rise in
      (d -ℤ c', at_above, omega (int_laws, parts_of_eq same), rw same at rest)

-- Rows that agree at some times.
abbrev Agree : Dict ℤ ℤ → Dict ℤ ℤ → List ℤ → Type 0
Agree d e [] = Unit
Agree d e (t ∷ ts) = (get d t ≡ get e t) × Agree d e ts

Agree-put :
    (d e : Dict ℤ ℤ) (t v : ℤ) (ts : List ℤ) → Without t ts → Agree d e ts → Agree (put d t v) e ts
Agree-put d e t v [] w h = tt
Agree-put d e t v (u ∷ us) (apart, w) (here, h) =
    (get-put d t u v ∙ rw apart here, Agree-put d e t v us w h)

get-put_same : (d : Dict ℤ ℤ) (t v : ℤ) → get (put d t v) t ≡ some v
get-put_same d t v = get-put d t t v ∙ rw ((eqb_ℤ_iff t t).1 refl) refl

get-put_other : (d : Dict ℤ ℤ) (t v u : ℤ) → eqb_ℤ u t ≡ false → get (put d t v) u ≡ get d u
get-put_other d t v u apart = get-put d t u v ∙ grind (arith, eqb_ℤ_iff t u, eqb_ℤ_iff u t)

height_at-agree :
    (scale : Scale) (d e : Dict ℤ ℤ) (c t : ℤ)
    → get d t ≡ get e t
    → height_at scale d c t ≡ height_at scale e c t
unfolding height_at
height_at-agree scale d e c t h = rw (height_at, h) refl

module _ (scale : Scale) (has_duration : eqb_ℤ scale.duration (pos 0) ≡ false)
    (below row : Dict ℤ ℤ) where
  render_times-StandsOn :
      (times : List ℤ) (b : ℤ) (s : Seg)
      → At below s b
      → Stacked below b times
      → Unrepeated times
      → Agree s.row row times
      → (s' : Seg) × (render_times scale below s times ≡ ok s')
        × StandsOn scale below row s'.row s.cuml times
        × ((u : ℤ) → Without u times → get s'.row u ≡ get s.row u)
        × (l : ℤ) × (get below s'.last_time ≡ some l)
  unfolding render_times
  render_times-StandsOn [] b s at stacked apart agree = (s, refl, tt, λ u w. refl, b, at.0)
  render_times-StandsOn (t ∷ ts) b s at (b', at_b, lower, later) (w, apart) (here, agree) =
      let (s1, first, at1, cuml, row1) =
        render_time-At scale has_duration below t b b' s at at_b lower in
      let height : s1.cuml ≡ height_at scale row s.cuml t =
        cuml ∙ height_at-agree scale s.row row s.cuml t here in
      let agree1 : Agree s1.row row ts =
        rw row1 (Agree-put s.row row t (b' -ℤ s1.cuml) ts w agree) in
      let (s', rest, on, kept, l, last) = render_times-StandsOn ts b' s1 at1 later apart agree1 in
      let above : get s'.row t ≡ some (b' -ℤ height_at scale row s.cuml t) =
        kept t w
        ∙ rw row1 (get-put_same s.row t (b' -ℤ s1.cuml))
        ∙ ap (λ c. some (b' -ℤ c)) height in
      (
        s',
        rw first rest,
        (b', at_b, above, rw height at on),
        λ u (apart_u, w_u). kept u w_u ∙ rw row1 (get-put_other s.row t (b' -ℤ s1.cuml) u apart_u),
        l,
        last,
      )

  pub draw_last_ok :
      (l : ℤ) (s : Seg)
      → get below s.last_time ≡ some l
      → (s' : Seg) × (draw_last scale below s ≡ ok s') × (s'.row ≡ s.row)
  unfolding draw_last
  draw_last_ok l s last =
      let (x, edge) = x_of_ok scale has_duration below s.last_time in
      let rect : Rect = record { x = x; y = l -ℤ s.cuml; w = scale.bounds.w -ℤ x; h = s.cuml } in
      (
        record s { y = l -ℤ s.cuml; rectangles = s.rectangles ++ rect ∷ [] },
        rw (edge, last) refl,
        refl,
      )

  abbrev Rendered : ℤ → List ℤ → Type 0
  Rendered first times =
      (s : Seg) × (render_layer scale below row first times ≡ ok s)
      × StandsOn scale below row s.row (pos 0) (first ∷ times)

  render_layer-StandsOn_lem :
      (b first : ℤ) (times : List ℤ)
      → Stacked below b (first ∷ times)
      → Unrepeated (first ∷ times)
      → Agree row row (first ∷ times)
      → Rendered first times
  unfolding render_layer
  render_layer-StandsOn_lem b first times (b', at_b, lower, later) apart agree =
      let start : Seg = start_seg first b' row in
      let at : At below start b' = (at_b, omega int_laws, omega int_laws) in
      let (s, loop, on, kept, l, last) =
        render_times-StandsOn (first ∷ times) b' start at (b', at_b, omega arith, later) apart
          agree in
      let (s', drawn, same) = draw_last_ok l s last in
      (
        s',
        rw (at_b, loop) drawn,
        subst (λ r. StandsOn scale below row r (pos 0) (first ∷ times)) (sym same) on,
      )

Agree-refl : (d : Dict ℤ ℤ) (times : List ℤ) → Agree d d times
Agree-refl d [] = tt
Agree-refl d (t ∷ ts) = (refl, Agree-refl d ts)

-- When the duration is not zero, no time occurs twice, and the layer below has a place for every time
-- and from left to right never sinks, then the layer of a group is drawn without an exception, and its
-- new row stands at every time exactly the rounded height of the group above the layer below: although
-- `y` is only computed where a segment ends, no time has an outdated one.
pub render_layer-StandsOn :
    (scale : Scale) (below row : Dict ℤ ℤ) (b first : ℤ) (times : List ℤ)
    → ¬ (scale.duration ≡ pos 0)
    → Stacked below b (first ∷ times)
    → Unrepeated (first ∷ times)
    → (s : Seg) × (render_layer scale below row first times ≡ ok s)
      × StandsOn scale below row s.row (pos 0) (first ∷ times)
render_layer-StandsOn scale below row b first times some_time stacked apart =
    let has_duration : eqb_ℤ scale.duration (pos 0) ≡ false =
      grind (arith, eqb_ℤ_iff scale.duration (pos 0)) in
    render_layer-StandsOn_lem scale has_duration below row b first times stacked apart
      (Agree-refl row (first ∷ times))

-- When the heights of the group never sink either, the new row is again a layer for the next one.
pub render_layer-Stacked :
    (scale : Scale) (below row : Dict ℤ ℤ) (b first : ℤ) (times : List ℤ)
    → ¬ (scale.duration ≡ pos 0)
    → Stacked below b (first ∷ times)
    → Unrepeated (first ∷ times)
    → HeightsRise scale below row (pos 0) (first ∷ times)
    → (s : Seg) × (render_layer scale below row first times ≡ ok s)
      × Stacked s.row b (first ∷ times)
render_layer-Stacked scale below row b first times some_time stacked apart rise =
    let (s, drawn, on) =
      render_layer-StandsOn scale below row b first times some_time stacked apart in
    let same : b -ℤ pos 0 ≡ b = omega int_laws in
    let stack : Stacked s.row (b -ℤ pos 0) (first ∷ times) =
      StandsOn-Stacked scale below row s.row b (pos 0) (first ∷ times) stacked on rise in
    (s, drawn, rw same at stack)
