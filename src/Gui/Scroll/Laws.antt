-- ===== src/Gui/Scroll/Laws.antt =====
-- What the adjustments are after a zoom.
use bootchart.Prelude.{false, ◌≡◌, ◌⊎◌, true, false}
use bootchart.Prelude.Int.{pos}
use bootchart.Prelude.Ratio.{Ratio}
use bootchart.Gui.Widget.{Adjustment, Widget, is_less, is_equal, subtract, whole}

-- The page fits behind the value `v`, or there is no room for it and `v` is not above 0.
abbrev pub Fits : Ratio → Ratio → Ratio → Type 0
Fits upper page v =
    (is_less (subtract upper page) v ≡ false)
    ⊎ ((is_less (whole (pos 0)) (subtract upper page) ≡ false)
        × (is_less (whole (pos 0)) v ≡ false))

-- An adjustment `new` with a new upper bound, where it was `old`: its page stands within the bound,
-- and its value is the old one, or comes down to where the page just fits, or to 0 where it does not.
pub record Bounded (upper : Ratio) (old new : Adjustment) : Type 0 where
  pub has_upper : is_equal new.upper upper ≡ true
  pub is_within : Fits upper old.page_size new.value
  pub is_kept :
      (new.value ≡ old.value)
      ⊎ ((is_less new.value old.value ≡ true)
          × ((new.value ≡ subtract upper old.page_size) ⊎ (new.value ≡ whole (pos 0))))
  pub has_page : new.page_size ≡ old.page_size
  pub is_same : new.object ≡ old.object
