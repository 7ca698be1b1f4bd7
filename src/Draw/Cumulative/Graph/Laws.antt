-- ===== src/Draw/Cumulative/Graph/Laws.antt =====
-- The loops of the cumulative graph look up only times that they have put in.
use mathlib.Core.Path.{subst}
use bootchart.Prelude.{
  ◌≡◌, refl, sym, ◌∙◌, inl, inr, false, Option, none, some, List, [], ◌∷◌, Bool-cases, arith, Text,
}
use bootchart.Prelude.Results.{ok, ◌>>=◌, fold_results}
use bootchart.Prelude.Int.{ℤ, pos, ◌+ℤ◌, ◌-ℤ◌, eqb_ℤ, eqb_ℤ_iff}
use bootchart.Prelude.Dict.{Dict, int_key, get, put, keys, get-put}
use bootchart.Prelude.Sort.{sort_by}
use bootchart.Samples.{Process}
use bootchart.Draw.Cumulative.{StatType, CumlSample, Groups, no_groups, group_processes}
use bootchart.Draw.Cumulative.Layer.{
  Scale, Seg, draw_trailing, put_row, render_time, render_times, start_seg, render_layer,
  accumulate,
}
use bootchart.Draw.Cumulative.Layer.Laws.{
  height_at, draw_trailing_ok, follow_below-cases, follow_row-cases,
}
use bootchart.Draw.Cumulative.Layer.Heights.{draw_last_ok}
use bootchart.Draw.Cumulative.Graph.{
  Graph, ground, is_tiny, add_layer, draw_group, draw_groups, draw_graph, draw_cuml_graph, values,
}

abbrev Has : Dict ℤ ℤ → ℤ → Type 0
Has below t = (b : ℤ) × (get below t ≡ some b)

abbrev Covers : Dict ℤ ℤ → List ℤ → Type 0
Covers below [] = Unit
Covers below (t ∷ ts) = Has below t × Covers below ts

Has-put : (d : Dict ℤ ℤ) (t v u : ℤ) → Has d u → Has (put d t v) u
Has-put d t v u (b, h) = elim (Bool-cases (eqb_ℤ t u)) [
  | inl e ↦ (v, get-put d t u v ∙ rw e refl)
  | inr e ↦ (b, get-put d t u v ∙ rw e h)
]

Has-put_same : (d : Dict ℤ ℤ) (t v : ℤ) → Has (put d t v) t
Has-put_same d t v = (v, get-put d t t v ∙ rw ((eqb_ℤ_iff t t).1 refl) refl)

abbrev grown_at : Scale → ℤ → Seg → Seg
grown_at scale time s = record s { last_cuml = s.cuml; cuml = height_at scale s.row s.cuml time }

module _ (scale : Scale) (has_duration : eqb_ℤ scale.duration (pos 0) ≡ false)
    (below : Dict ℤ ℤ) where
  draw_trailing-Has :
      (time : ℤ) (s : Seg)
      → Has below s.last_time
      → Has below time
      → (s' : Seg) × (y : ℤ) × ((draw_trailing scale below time s >>= λ s'. ok (put_row time s'))
          ≡ ok s')
        × Has below s'.last_time
        × (s'.row ≡ put s.row time y)
  draw_trailing-Has time s (bp, at_last) (b, at_time) =
      let (s', drawn, at, y_is, kept, same, row) =
        draw_trailing_ok scale has_duration below time bp b s at_last at_time in
      (s', b -ℤ s.cuml, drawn, (b, at), row)

  render_time-Has :
      (time : ℤ) (s : Seg)
      → Has below s.last_time
      → Has below time
      → (s' : Seg) × (y : ℤ) × (render_time scale below s time ≡ ok s')
        × Has below s'.last_time
        × (s'.row ≡ put s.row time y)
  unfolding render_time
  render_time-Has time s (bp, at_last) (b, at_time) =
      let moved : Seg = record s { last_below = bp; last_cuml = s.cuml } in
      let at_last' : Has below s.last_time = (bp, at_last) in
      let at_time' : Has below time = (b, at_time) in
      elim (follow_below-cases scale has_duration below time bp b s at_last at_time) [
        | inl (still, quiet) ↦ elim (follow_row-cases scale has_duration below time s) [
          | inl (e, h) ↦ (put_row time s, s.y, rw (quiet, e) refl, at_last', refl)
          | inr e ↦
              let (s', y, drawn, at, row) =
                draw_trailing-Has time (grown_at scale time s) at_last' at_time' in
              (s', y, rw (quiet, e) drawn, at, row)
        ]
        | inr change ↦ elim (follow_row-cases scale has_duration below time moved) [
          | inl (e, h) ↦
              let (s', y, drawn, at, row) = draw_trailing-Has time moved at_last' at_time' in
              (s', y, rw (change, e) drawn, at, row)
          | inr e ↦
              let (s', y, drawn, at, row) =
                draw_trailing-Has time (grown_at scale time moved) at_last' at_time' in
              (s', y, rw (change, e) drawn, at, row)
        ]
      ]

  render_times-Has :
      (times : List ℤ) (s : Seg)
      → Has below s.last_time
      → Covers below times
      → (s' : Seg) × (render_times scale below s times ≡ ok s')
        × Has below s'.last_time
        × ((u : ℤ) → Has s.row u → Has s'.row u)
        × Covers s'.row times
  unfolding render_times
  render_times-Has [] s last covers = (s, refl, last, λ u h. h, tt)
  render_times-Has (t ∷ ts) s last (at_time, covers) =
      let (s1, y, first, last1, row) = render_time-Has t s last at_time in
      let (s', rest, last', kept, covered) = render_times-Has ts s1 last1 covers in
      let keep : (u : ℤ) → Has s.row u → Has s1.row u = λ u h. rw row (Has-put s.row t y u h) in
      (
        s',
        rw first rest,
        last',
        λ u h. kept u (keep u h),
        (kept t (rw row (Has-put_same s.row t y)), covered),
      )

  -- A layer over times that the layer below covers is drawn, and covers them too.
  render_layer-Covers :
      (row : Dict ℤ ℤ) (first : ℤ) (times : List ℤ)
      → Covers below (first ∷ times)
      → (s : Seg) × (render_layer scale below row first times ≡ ok s) × Covers s.row (first ∷ times)
  unfolding render_layer
  render_layer-Covers row first times ((b, at), covers) =
      let (s, loop, (l, last), kept, covered) =
        render_times-Has (first ∷ times) (start_seg first b row) (b, at) ((b, at), covers) in
      let (s', drawn, same) = draw_last_ok scale has_duration below row l s last in
      (s', rw (at, loop) drawn, subst (λ r. Covers r (first ∷ times)) (sym same) covered)

module _ (bottom : ℤ) where
  Has-ground :
      (ts : List ℤ) (below : Dict ℤ ℤ) (u : ℤ) → Has below u → Has (ground bottom ts below) u
  unfolding ground
  Has-ground [] below u h = h
  Has-ground (t ∷ ts) below u h = Has-ground ts (put below t bottom) u (Has-put below t bottom u h)

  ground-Covers : (ts : List ℤ) (below : Dict ℤ ℤ) → Covers (ground bottom ts below) ts
  unfolding ground
  ground-Covers [] below = tt
  ground-Covers (t ∷ ts) below =
      let below' : Dict ℤ ℤ = put below t bottom in
      (Has-ground ts below' t (Has-put_same below t bottom), ground-Covers ts below')

module _ (text_extents : Text → ℤ × ℤ) (stat : StatType) (scale : Scale)
    (has_duration : eqb_ℤ scale.duration (pos 0) ≡ false) (first : ℤ) (times : List ℤ) where
  draw_group-Covers :
      (g : Graph) (cs : CumlSample)
      → Covers g.below (first ∷ times)
      → (g' : Graph) × (draw_group text_extents scale stat first times g cs ≡ ok g')
        × Covers g'.below (first ∷ times)
  unfolding draw_group add_layer
  draw_group-Covers g cs covers =
      let summed : ℤ × Dict ℤ ℤ = accumulate stat (pos 0) [] cs.samples in
      elim (Bool-cases (is_tiny scale summed.0)) [
        | inl e ↦ (g, rw e refl, covers)
        | inr e ↦
            let (s, drawn, covered) =
              render_layer-Covers scale has_duration g.below summed.1 first times covers in
            (add_layer text_extents scale g cs summed.0 s, rw (e, drawn) refl, covered)
      ]

  fold-Covers :
      (groups : List CumlSample) (g : Graph)
      → Covers g.below (first ∷ times)
      → (g' : Graph) × (fold_results (draw_group text_extents scale stat first times) g groups
          ≡ ok g')
  unfolding fold_results
  fold-Covers [] g covers = (g, refl)
  fold-Covers (cs ∷ groups) g covers =
      let (g1, drawn, covers1) = draw_group-Covers g cs covers in
      let (g', rest) = fold-Covers groups g1 covers1 in (g', rw drawn rest)

draw_groups_ok :
    (text_extents : Text → ℤ × ℤ) (stat : StatType) (scale : Scale)
    → ¬ (scale.duration ≡ pos 0)
    → (first : ℤ) (times : List ℤ) (groups : Dict Text CumlSample)
    → (g : Graph) × (draw_groups text_extents scale stat first times groups ≡ ok g)
unfolding draw_groups
draw_groups_ok text_extents stat scale some_time first times groups =
    let has_duration : eqb_ℤ scale.duration (pos 0) ≡ false =
      grind (arith, eqb_ℤ_iff scale.duration (pos 0)) in
    let bottom = scale.bounds.y +ℤ scale.bounds.h in
    fold-Covers text_extents stat scale has_duration first times (values groups)
      (record {
        below = ground bottom (first ∷ times) [];
        palette_idx = 0;
        layers = [];
        labels = [];
        legends = [];
      })
      (ground-Covers bottom (first ∷ times) [])

draw_graph_ok :
    (text_extents : Text → ℤ × ℤ) (scale : Scale) (stat : StatType)
    → ¬ (scale.duration ≡ pos 0)
    → (g : Groups) (times : List ℤ)
    → (drawn : Option Graph) × (draw_graph text_extents scale stat g times ≡ ok drawn)
unfolding draw_graph
draw_graph_ok text_extents scale stat some_time g [] = (none, refl)
draw_graph_ok text_extents scale stat some_time g (first ∷ []) = (none, refl)
draw_graph_ok text_extents scale stat some_time g (first ∷ second ∷ times) =
    elim (Bool-cases (eqb_ℤ g.total_time (pos 0))) [
      | inl e ↦ (none, rw e refl)
      | inr e ↦
          let whole : Scale = record scale { total_time = g.total_time } in
          let (graph, drawn) =
            draw_groups_ok text_extents stat whole some_time first (second ∷ times) g.m_proc_list in
          (some graph, rw (e, drawn) refl)
    ]

-- For any processes, samples and chart, and either statistic, the graph is drawn or found degenerate
-- without an exception when the duration is not zero: no lookup of a layer misses a time, and no quotient
-- has a zero divisor.
pub draw_cuml_graph-returns :
    (text_extents : Text → ℤ × ℤ) (scale : Scale) (stat : StatType) (processes : List (Process ℤ))
    → ¬ (scale.duration ≡ pos 0)
    → (drawn : Option Graph) × (draw_cuml_graph text_extents scale stat processes ≡ ok drawn)
unfolding draw_cuml_graph
draw_cuml_graph-returns text_extents scale stat processes some_time =
    let g = group_processes stat no_groups processes in
    draw_graph_ok text_extents scale stat some_time g (sort_by (λ (t : ℤ). t) (keys g.time_hash))
