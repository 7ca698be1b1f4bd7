-- ===== src/Draw/Activity/Laws.antt =====
-- The bars of a process side by side.
use bootchart.Prelude.{
  ◌≡◌, refl, sym, ap₂, inl, inr, Bool, true, false, not, ◌&&◌, List, [], ◌∷◌, Bool-cases,
  if◌then◌else◌, arith,
}
use bootchart.Prelude.Int.{
  ℤ, pos, ◌+ℤ◌, ◌-ℤ◌, ◌≤ℤ◌, ◌<ℤ◌, ltb_ℤ, leb_ℤ, eqb_ℤ, eqb_ℤ_iff, max_ℤ, max_ℤ-eq_left, ltb_ℤ→lt,
  ltb_ℤ→ge, lt→ltb_ℤ, int_laws, parts_of_eq,
}
use bootchart.Samples.{ProcessSample}
use bootchart.Draw.Clip.{Rect}
use bootchart.Draw.Activity.{Bar, no_last, fit_bar, get_proc_state, is_sleeping, draw_bars}

-- A fitting bar: it ends `width` behind `tx`, and does not start before the last one's end.
abbrev Fits : ℤ → ℤ → ℤ → ℤ × ℤ → Type 0
Fits width last_tx tx bar = (bar.0 +ℤ bar.1 ≡ tx +ℤ width) × (last_tx ≤ℤ bar.0) × (pos 1 ≤ℤ bar.1)

leb_ℤ→gt : (a b : ℤ) → leb_ℤ a b ≡ false → b <ℤ a
leb_ℤ→gt a b h = ground arith

-- A last bar that is not near ends before `tx`.
far→le :
    (width last_tx tx : ℤ)
    → pos 0 ≤ℤ tx
    → last_tx <ℤ tx +ℤ width
    → (not (eqb_ℤ last_tx no_last)
        && (leb_ℤ (last_tx -ℤ tx) width && leb_ℤ (pos 0 -ℤ (last_tx -ℤ tx)) width))
      ≡ false
    → last_tx ≤ℤ tx
far→le width last_tx tx right before far =
    let apart = last_tx -ℤ tx in
    elim (Bool-cases (eqb_ℤ last_tx no_last)) [
      | inl e ↦ omega (arith, parts_of_eq ((eqb_ℤ_iff last_tx no_last).0 e))
      | inr e ↦ elim (Bool-cases (leb_ℤ apart width)) [
        | inl l ↦ omega (int_laws, leb_ℤ→gt (pos 0 -ℤ apart) width (rw (e, l) at far))
        | inr l ↦ omega (int_laws, leb_ℤ→gt apart width l)
      ]
    ]

fit_bar-Fits :
    (width last_tx tx : ℤ)
    → pos 1 ≤ℤ width
    → pos 0 ≤ℤ tx
    → last_tx <ℤ tx +ℤ width
    → Fits width last_tx tx (fit_bar width last_tx tx)
unfolding fit_bar
fit_bar-Fits width last_tx tx wide right before =
    let apart = last_tx -ℤ tx in
    elim (Bool-cases
      (not (eqb_ℤ last_tx no_last) && (leb_ℤ apart width && leb_ℤ (pos 0 -ℤ apart) width))) [
        | inl e ↦
            let same : max_ℤ (width -ℤ apart) (pos 1) ≡ width -ℤ apart =
              max_ℤ-eq_left _ _ (omega int_laws) in
            rw (fit_bar, e, same) (omega int_laws, omega int_laws, omega int_laws)
        | inr e ↦
            let same : max_ℤ width (pos 1) ≡ width = max_ℤ-eq_left _ _ wide in
            rw (fit_bar, e, same) (refl, far→le width last_tx tx right before e, wide)
      ]

&&-false : (a b : Bool) → ((a && false) && b) ≡ false
&&-false a b = ground arith

module _ {V : Type 0} where
  -- The samples stand from left to right, each at a pixel of its own behind `t`.
  abbrev pub Rising : ℤ → List (ℤ × ProcessSample V) → Type 0
  Rising t [] = Unit
  Rising t ((tx, s) ∷ rest) = (t <ℤ tx) × Rising tx rest

  -- No bar starts before `t` or before the end of the bar in front of it, and each is a pixel wide.
  abbrev pub SideBySide : ℤ → List (Bar V) → Type 0
  SideBySide t [] = Unit
  SideBySide t (b ∷ bs) = (t ≤ℤ b.x) × (pos 1 ≤ℤ b.w) × SideBySide (b.x +ℤ b.w) bs

  unfoldable pub ends : List (Bar V) → List ℤ
  ends [] = []
  ends (b ∷ bs) = (b.x +ℤ b.w) ∷ ends bs

  -- The sample is in the clip, and not of a sleeping process.
  unfoldable pub is_shown : Rect → ℤ → ProcessSample V → Bool
  is_shown clip tx s =
      not (ltb_ℤ tx clip.x)
      && not (ltb_ℤ (clip.x +ℤ clip.w) tx)
      && not (is_sleeping (get_proc_state s.state))

  -- Where the bars of the shown samples end: `width` behind them.
  unfoldable pub shown_ends : Rect → ℤ → List (ℤ × ProcessSample V) → List ℤ
  shown_ends clip width [] = []
  shown_ends clip width ((tx, s) ∷ rest) =
      let later : List ℤ = shown_ends clip width rest in
      if is_shown clip tx s then (tx +ℤ width) ∷ later else later

  SideBySide-before : (t u : ℤ) (bs : List (Bar V)) → t ≤ℤ u → SideBySide u bs → SideBySide t bs
  SideBySide-before t u [] h side = tt
  SideBySide-before t u (b ∷ bs) h (first, wide, rest) = (omega (arith, h), wide, rest)

  is_shown_behind :
      (clip : Rect) (tx : ℤ) (s : ProcessSample V)
      → ltb_ℤ (clip.x +ℤ clip.w) tx ≡ true
      → is_shown clip tx s ≡ false
  unfolding is_shown
  is_shown_behind clip tx s out =
      rw (is_shown, out)
        (&&-false (not (ltb_ℤ tx clip.x)) (not (is_sleeping (get_proc_state s.state))))

  -- Nothing is shown behind the clip.
  shown_ends-behind :
      (clip : Rect) (width t : ℤ) (placed : List (ℤ × ProcessSample V))
      → clip.x +ℤ clip.w ≤ℤ t
      → Rising t placed
      → shown_ends clip width placed ≡ []
  unfolding shown_ends
  shown_ends-behind clip width t [] right rising = refl
  shown_ends-behind clip width t ((tx, s) ∷ rest) right (above, rising) =
      let out : ltb_ℤ (clip.x +ℤ clip.w) tx ≡ true =
        lt→ltb_ℤ (clip.x +ℤ clip.w) tx (omega (arith, right, above)) in
      let hidden = is_shown_behind clip tx s out in
      rw hidden (shown_ends-behind clip width tx rest (omega (arith, right, above)) rising)

  abbrev Drawn : Rect → ℤ → ℤ → List (ℤ × ProcessSample V) → List (Bar V) → Type 0
  Drawn clip width last_tx placed bars =
      SideBySide last_tx bars × (ends bars ≡ shown_ends clip width placed)

  draw_bars-Drawn :
      (clip : Rect) (width t last_tx : ℤ) (placed : List (ℤ × ProcessSample V))
      → pos 1 ≤ℤ width
      → pos 0 ≤ℤ clip.x
      → last_tx ≤ℤ t +ℤ width
      → Rising t placed
      → Drawn clip width last_tx placed (draw_bars clip width last_tx placed)
  unfolding draw_bars ends shown_ends is_shown
  draw_bars-Drawn clip width t last_tx [] wide right reach rising = (tt, refl)
  draw_bars-Drawn clip width t last_tx ((tx, s) ∷ rest) wide right reach (above, rising) =
      elim (Bool-cases (ltb_ℤ tx clip.x)) [
        | inl l ↦
            let skipped =
              draw_bars-Drawn clip width tx last_tx rest wide right (omega (int_laws, reach, above))
                rising in
            rw (draw_bars, shown_ends, is_shown, l) skipped
        | inr l ↦ elim (Bool-cases (ltb_ℤ (clip.x +ℤ clip.w) tx)) [
          | inl r ↦
              let behind = ltb_ℤ→lt (clip.x +ℤ clip.w) tx r in
              let nothing = shown_ends-behind clip width tx rest (omega (arith, behind)) rising in
              rw (draw_bars, shown_ends, is_shown, l, r) (tt, sym nothing)
          | inr r ↦
              let bar = fit_bar width last_tx tx in
              let at_least = ltb_ℤ→ge tx clip.x l in
              let (end_is, start, w) =
                fit_bar-Fits width last_tx tx wide (omega (int_laws, at_least, right))
                  (omega (int_laws, reach, above)) in
              let (side, later) =
                draw_bars-Drawn clip width tx (bar.0 +ℤ bar.1) rest wide right
                  (omega (int_laws, parts_of_eq end_is)) rising in
              elim (Bool-cases (is_sleeping (get_proc_state s.state))) [
                | inl z ↦
                    rw (draw_bars, shown_ends, is_shown, l, r, z)
                      (
                        SideBySide-before last_tx (bar.0 +ℤ bar.1) _ (omega (int_laws, start, w))
                            side,
                        later,
                      )
                | inr z ↦
                    rw (draw_bars, shown_ends, is_shown, l, r, z)
                      ((start, w, side), ap₂ ◌∷◌ end_is later)
              ]
        ]
      ]

-- For a bar of at least one pixel, a clip that does not start left of 0, and samples that stand from left to
-- right at different pixels: the bars that the loop draws lie side by side without overlapping, each at
-- least a pixel wide, and they are those of exactly the samples in the clip that are not of a sleeping
-- process, each ending the width of a sample period behind its sample.
pub draw_bars-SideBySide :
    {V : Type 0} (clip : Rect) (width t : ℤ) (placed : List (ℤ × ProcessSample V))
    → pos 1 ≤ℤ width
    → pos 0 ≤ℤ clip.x
    → pos 0 ≤ℤ t
    → Rising t placed
    → SideBySide no_last (draw_bars clip width no_last placed)
      × (ends (draw_bars clip width no_last placed) ≡ shown_ends clip width placed)
draw_bars-SideBySide clip width t placed wide right start rising =
    draw_bars-Drawn clip width t no_last placed wide right (omega (int_laws, wide, start)) rising
