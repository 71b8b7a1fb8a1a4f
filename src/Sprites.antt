-- ===== src/Sprites.antt =====
-- frontend/sprites.py: which frame of the figure is shown, and how it is painted. What pygame does
-- with a `fill` is not modelled; a frame is the list of its fills.
pub mod Frames
pub mod Fits
use silicon_office.Prelude.{
  ℕ, zero, suc, ◌+◌, ◌*◌, ◌%◌, String, Option, none, some, get_or, List, [], ◌∷◌, ◌++◌, length, eqb,
  Bool, true, false, ◌&&◌, ◌==◌,
}
use silicon_office.Prelude.Dict.{lookup}
use silicon_office.Sprites.Frames.{
  Color, base_palette, all_frames, state_frame_sequence, idle_sequence,
}

abbrev pub width : ℕ
width = 10

abbrev pub height : ℕ
height = 12

-- PIXEL_SCALE of frontend/theme.py
abbrev pub pixel_scale : ℕ
pixel_scale = 7

-- `sequence[index]`
unfoldable pub nth : List String → ℕ → Option String
nth [] n = none
nth (x ∷ xs) zero = some x
nth (x ∷ xs) (suc n) = nth xs n

unfoldable pub sequence_for : String → List String
sequence_for state = get_or (lookup state state_frame_sequence) idle_sequence

-- `frame_name_for`; `steps` is `int(anim_tick / interval)`.
unfoldable pub frame_name_for : String → ℕ → Option String
frame_name_for state steps =
    let sequence = sequence_for state in nth sequence (steps % length sequence)

-- `surf.fill(color, (x, y, PIXEL_SCALE, PIXEL_SCALE))`
pub record Fill : Type 0 where
  pub color : Color
  pub left : ℕ
  pub top : ℕ

-- `_BASE_PALETTE.get(ch)`, and None for a missing character.
unfoldable pub color_of : String → Option Color
color_of ch = get_or (lookup ch base_palette) none

unfoldable pub paint_cell : ℕ → ℕ → Option Color → List Fill → List Fill
paint_cell x y none later = later
paint_cell x y (some color) later =
    record { color = color; left = x * pixel_scale; top = y * pixel_scale } ∷ later

unfoldable pub paint_row : ℕ → ℕ → String → List Fill
paint_row x y String.[] = []
paint_row x y (String.◌∷◌ ch row) =
    paint_cell x y (color_of (String.◌∷◌ ch String.[])) (paint_row (suc x) y row)

-- The loops of `_render_frame`.
unfoldable pub paint_rows : ℕ → List String → List Fill
paint_rows y [] = []
paint_rows y (row ∷ rows) = paint_row 0 y row ++ paint_rows (suc y) rows

unfoldable pub render_frame : List String → List Fill
render_frame grid = paint_rows 0 grid

-- `len(row)`
unfoldable pub columns : String → ℕ
columns String.[] = 0
columns (String.◌∷◌ ch row) = suc (columns row)

-- The asserts over `_ALL_FRAMES`.
unfoldable pub rows_have_width : List String → Bool
rows_have_width [] = true
rows_have_width (row ∷ rows) = eqb (columns row) width && rows_have_width rows

unfoldable pub has_size : List String → Bool
has_size grid = eqb (length grid) height && rows_have_width grid
