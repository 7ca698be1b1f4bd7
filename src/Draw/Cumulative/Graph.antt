-- ===== src/Draw/Cumulative/Graph.antt =====
-- draw_cuml_graph of draw.py: the layers of all groups on one another, with their labels and legends.
pub mod Laws
use bootchart.Prelude.{
  ℕ, ◌+◌, ◌*◌, ◌/◌, ◌%◌, Bool, true, false, ltb, List, [], ◌∷◌, ◌++◌, if◌then◌else◌, Option, none,
  some, Text,
}
use bootchart.Prelude.Results.{Result, ok, err, ◌>>=◌, fold_results}
use bootchart.Prelude.Int.{ℤ, pos, ◌+ℤ◌, ◌-ℤ◌, ◌*ℤ◌, eqb_ℤ, leb_ℤ, ltb_ℤ}
use bootchart.Prelude.Ratio.{Ratio, ratio}
use bootchart.Prelude.Dict.{Dict, int_key, get, put, keys}
use bootchart.Prelude.Sort.{sort_by}
use bootchart.Samples.{Process}
use bootchart.Draw.Clip.{Rect}
use bootchart.Draw.Cumulative.{StatType, CumlSample, Groups, no_groups, group_processes}
use bootchart.Draw.Cumulative.Layer.{Scale, to_pixels, accumulate, Seg, render_layer}

-- What is drawn of a group: the rectangles of its layer in its colour, of which `colour` is the number
-- `i` of get_color.
pub record Layer : Type 0 where
  pub colour : ℕ
  pub rectangles : List Rect

pub record Label : Type 0 where
  pub text : Text
  pub x : ℤ
  pub y : Ratio

-- An entry of `legends`.
pub record Legend : Type 0 where
  pub cmd : Text
  pub time : ℤ
  pub colour : ℕ

pub record Graph : Type 0 where
  pub below : Dict ℤ ℤ
  pub palette_idx : ℕ
  pub layers : List Layer
  pub labels : List Label
  pub legends : List Legend

-- CumlSample.next and `i` of CumlSample.get_color
unfoldable pub next_colour : ℕ → ℕ × ℕ
next_colour palette_idx = (palette_idx + 7, (palette_idx + 7) % 31)

-- The dictionary values in order.
unfoldable pub values : Dict Text CumlSample → List CumlSample
values [] = []
values ((cmd, c) ∷ d) = c ∷ values d

-- `below` before the first group: the bottom of the chart at all times.
unfoldable pub ground : ℤ → List ℤ → Dict ℤ ℤ → Dict ℤ ℤ
ground bottom [] below = below
ground bottom (t ∷ ts) below = ground bottom ts (put below t bottom)

-- cuml * pix_per_ns <= 2
unfoldable pub is_tiny : Scale → ℤ → Bool
is_tiny scale cuml =
    let pixels : Ratio = to_pixels scale cuml in leb_ℤ pixels.num (pos 2 *ℤ pos pixels.den)

-- `text_extents` is the width and the height of a text, which cairo knows.
module _ (text_extents : Text → ℤ × ℤ) (scale : Scale) where
  -- `render legend if it will fit`
  unfoldable pub labels_of : Text → Seg → List Label
  labels_of cmd s =
      let extents : ℤ × ℤ = text_extents cmd in
      if ltb_ℤ (pos 8) s.cuml
      then record {
        text = cmd;
        x = scale.bounds.x +ℤ scale.bounds.w -ℤ extents.0 -ℤ pos 20;
        y = ratio (pos 2 *ℤ s.y +ℤ s.cuml +ℤ extents.1) (pos 2);
      }
        ∷ []
      else []

  -- The graph with the layer of a group on top.
  unfoldable pub add_layer : Graph → CumlSample → ℤ → Seg → Graph
  unfolding next_colour labels_of
  add_layer g cs process_total_time s =
      let colour : ℕ × ℕ = next_colour g.palette_idx in
      record {
        below = s.row;
        palette_idx = colour.0;
        layers = g.layers ++ record { colour = colour.1; rectangles = s.rectangles } ∷ [];
        labels = g.labels ++ labels_of cs.cmd s;
        legends =
            g.legends ++ record { cmd = cs.cmd; time = process_total_time; colour = colour.1 } ∷ [];
      }

  -- One round of the loop over the groups.
  unfoldable pub draw_group : StatType → ℤ → List ℤ → Graph → CumlSample → Result Graph
  draw_group stat first times g cs =
      let summed : ℤ × Dict ℤ ℤ = accumulate stat (pos 0) [] cs.samples in
      if is_tiny scale summed.0
      then ok g
      else render_layer scale g.below summed.1 first times >>= λ s. ok (add_layer g cs summed.0 s)

  unfoldable pub draw_groups : StatType → ℤ → List ℤ → Dict Text CumlSample → Result Graph
  draw_groups stat first times groups =
      let empty : Graph = record {
        below = ground (scale.bounds.y +ℤ scale.bounds.h) (first ∷ times) [];
        palette_idx = 0;
        layers = [];
        labels = [];
        legends = [];
      } in
      fold_results (draw_group stat first times) empty (values groups)

-- The graph of the groups over the sample times; `degenerate boot chart` is none.
unfoldable pub draw_graph :
    (Text → ℤ × ℤ) → Scale → StatType → Groups → List ℤ → Result (Option Graph)
draw_graph text_extents scale stat g [] = ok none
draw_graph text_extents scale stat g (first ∷ []) = ok none
draw_graph text_extents scale stat g (first ∷ second ∷ times) =
    if eqb_ℤ g.total_time (pos 0)
    then ok none
    else let whole : Scale = record scale { total_time = g.total_time } in
      draw_groups text_extents whole stat first (second ∷ times) g.m_proc_list >>= λ graph.
      ok (some graph)

-- The scale is that of the whole graph but for the total time.
unfoldable pub draw_cuml_graph :
    (Text → ℤ × ℤ) → Scale → StatType → List (Process ℤ) → Result (Option Graph)
draw_cuml_graph text_extents scale stat processes =
    let g : Groups = group_processes stat no_groups processes in
    draw_graph text_extents scale stat g (sort_by (λ (t : ℤ). t) (keys g.time_hash))

-- Where the legend of number `i` stands, and the legends that are drawn: the largest times first, at
-- most 45.
pub record LegendBox : Type 0 where
  pub cmd : Text
  pub time : ℤ
  pub colour : ℕ
  pub x : ℤ
  pub y : ℤ

unfoldable pub place_legends : Rect → ℕ → List Legend → List LegendBox
place_legends bounds i [] = []
place_legends bounds i (l ∷ ls) =
    let rest : List LegendBox = place_legends bounds (i + 1) ls in
    let box : LegendBox = record {
      cmd = l.cmd;
      time = l.time;
      colour = l.colour;
      x = bounds.x +ℤ pos 10 +ℤ pos (i / 15 * 300);
      y = bounds.y +ℤ pos (20 * (i % 15 + 2));
    } in
    if ltb i 44 then box ∷ rest else box ∷ []

unfoldable pub draw_legends : Rect → List Legend → List LegendBox
draw_legends bounds legends =
    place_legends bounds 0 (sort_by (λ (l : Legend). pos 0 -ℤ l.time) legends)
