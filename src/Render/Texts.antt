-- ===== src/Render/Texts.antt =====
-- Where frontend/render.py puts its texts: the three below a desk in `draw_agent`, the banner,
-- and the usage bar. The size of a text that pygame renders is a parameter. The figures on the
-- usage bar, which come from floats, are texts here.
use silicon_office.Prelude.{ℕ, ◌+◌, ◌/◌, String, ◌<>◌, ◌≡◌, List, [], ◌∷◌, ◌++◌, arith}
use silicon_office.Prelude.Int.{ℤ, pos, ◌+ℤ◌, ◌-ℤ◌, half}

-- A text on the screen, by its upper left corner.
pub record Placed : Type 0 where
  pub text : String
  pub left : ℤ
  pub top : ℤ

pub record Size : Type 0 where
  pub width : ℕ
  pub height : ℕ

module _ (size : String → Size) where
  -- The loop over the surfaces, from `text_y`: each text goes above the one before it.
  unfoldable pub stack : ℕ → ℕ → ℤ → List String → List Placed
  stack left width text_y [] = []
  stack left width text_y (s ∷ ss) =
      let top = text_y -ℤ pos ((size s).height + 2) in
      record { text = s; left = pos left +ℤ half (pos width -ℤ pos (size s).width); top = top }
      ∷ stack left width top ss

  -- The id, the label and the name under a desk: from its left edge, its width and its bottom.
  unfoldable pub desk_texts : ℕ → ℕ → ℕ → String → String → String → List Placed
  unfolding stack
  desk_texts left width bottom id label name =
      stack left width (pos bottom -ℤ pos 4) (id ∷ label ∷ name ∷ [])

  -- `draw_connection_banner`
  unfoldable pub banner_text : ℕ → Placed
  banner_text w =
      let text : String = "Reconnecting to daemon..." in
      record { text = text; left = half (pos w -ℤ pos (size text).width); top = pos 12 }

  -- `_blit_stat`: the two texts, and the end of the second.
  unfoldable pub blit_stat : String → String → ℤ → ℕ → List Placed × ℤ
  blit_stat label stat x center_y =
      let label_text = label <> "  " in
      let after = x +ℤ pos (size label_text).width in
      (
        record {
          text = label_text;
          left = x;
          top = pos center_y -ℤ pos ((size label_text).height / 2);
        }
            ∷ record {
              text = stat;
              left = after;
              top = pos center_y -ℤ pos ((size stat).height / 2);
            }
            ∷ [],
        after +ℤ pos (size stat).width,
      )

  -- `pad`, and the middle of the bar
  abbrev pub pad : ℕ
  pad = 16

  abbrev pub bar_center : ℕ
  bar_center = 17

  -- The left edge of the second group of `draw_usage_bar`.
  unfoldable pub week_left : ℕ → String → ℤ
  week_left w week_stat =
      pos w -ℤ pos pad -ℤ pos ((size ("Week %" <> "  ")).width + (size week_stat).width)

  -- The texts of `draw_usage_bar`, from its two figures.
  unfoldable pub bar_texts : ℕ → String → String → List Placed
  unfolding blit_stat week_left
  bar_texts w session_stat week_stat =
      (blit_stat "Session %" session_stat (pos pad) bar_center).0
      ++ (blit_stat "Week %" week_stat (week_left w week_stat) bar_center).0

  -- The second figure of the usage bar ends `pad` before the right edge of the window, however
  -- wide the texts are, and also in a window that is too narrow for them.
  pub week_ends :
      (w : ℕ) (week_stat : String)
      → (blit_stat "Week %" week_stat (week_left w week_stat) bar_center).1 ≡ pos w -ℤ pos pad
  unfolding blit_stat week_left ◌+ℤ◌ ◌-ℤ◌
  week_ends w week_stat = ground arith

  -- From the bottom up, each text ends two pixels above where the one before it starts.
  unfoldable pub IsStacked : ℤ → List Placed → Type 0
  IsStacked y [] = Unit
  IsStacked y (p ∷ ps) = (p.top +ℤ pos (size p.text).height +ℤ pos 2 ≡ y) × IsStacked p.top ps

  back_up : (y : ℤ) (n : ℕ) → y -ℤ pos (n + 2) +ℤ pos n +ℤ pos 2 ≡ y
  unfolding ◌+ℤ◌ ◌-ℤ◌
  back_up y n = ground arith

  stack-IsStacked :
      (left width : ℕ) (y : ℤ) (texts : List String) → IsStacked y (stack left width y texts)
  unfolding stack IsStacked
  stack-IsStacked left width y [] = tt
  stack-IsStacked left width y (s ∷ ss) =
      (back_up y (size s).height, stack-IsStacked left width (y -ℤ pos ((size s).height + 2)) ss)

  -- The texts of a desk never overlap, whatever their sizes: the id ends six pixels above the
  -- desk's bottom, and the label and the name each end two pixels above the text below them.
  pub desk_texts-IsStacked :
      (left width bottom : ℕ) (id label name : String)
      → IsStacked (pos bottom -ℤ pos 4) (desk_texts left width bottom id label name)
  unfolding desk_texts
  desk_texts-IsStacked left width bottom id label name =
      stack-IsStacked left width (pos bottom -ℤ pos 4) (id ∷ label ∷ name ∷ [])
