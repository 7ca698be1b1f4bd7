-- ===== src/Draw/Axis/Laws.antt =====
-- The labels of the seconds leave room for one another.
use bootchart.Prelude.{ℕ, zero, suc, ◌+◌, ◌*◌, ◌%◌, ◌==◌, inl, inr, List, [], ◌∷◌, Bool-cases}
use bootchart.Prelude.Int.{ℤ, pos, ◌+ℤ◌, ◌-ℤ◌, ◌*ℤ◌, ◌≤ℤ◌, leb_ℤ, leb_ℤ→le}
use bootchart.Draw.Clip.{Rect}
use bootchart.Draw.Axis.{SecLabel, labels_from}

-- Every label starts behind the one before it.
abbrev Spaced : ℤ → List SecLabel → Type 0
Spaced end' [] = Unit
Spaced end' (l ∷ ls) = (end' ≤ℤ l.start) × Spaced (l.start +ℤ (l.width +ℤ l.width)) ls

-- No label of the seconds covers another one.
labels_from-Spaced :
    (label_w : ℕ → ℤ) (rect : Rect) (sec_w nsecs : ℕ) (end' : ℤ) (k n : ℕ)
    → Spaced end' (labels_from label_w rect sec_w nsecs end' k n)
unfolding labels_from
labels_from-Spaced label_w rect sec_w nsecs end' k zero = tt
labels_from-Spaced label_w rect sec_w nsecs end' k (suc n) =
    let start = pos 2 *ℤ (rect.x +ℤ pos (k * sec_w)) -ℤ label_w k in
    let skipped = labels_from-Spaced label_w rect sec_w nsecs end' (k + 1) n in
    elim (Bool-cases (k % nsecs == 0)) [
      | inl e ↦ elim (Bool-cases (leb_ℤ end' start)) [
        | inl l ↦
            rw (labels_from, e, l)
              (
                leb_ℤ→le end' start l,
                labels_from-Spaced label_w rect sec_w nsecs (start +ℤ (label_w k +ℤ label_w k))
                    (k + 1) n,
              )
        | inr l ↦ rw (labels_from, e, l) skipped
      ]
      | inr e ↦ rw (labels_from, e) skipped
    ]
