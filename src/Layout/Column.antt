-- ===== src/Layout/Column.antt =====
-- The left edge and the width that `desk_rect` of frontend/layout.py gives to every desk. `int`
-- rounds the left edge, which is not negative, down.
use silicon_office.Prelude.{ℕ, ◌+◌, ◌-◌, ◌/◌, ◌≤◌, ◌≡◌, min, arith}
use silicon_office.Layout.Desk.{desk_margin}
use silicon_office.Prelude.Int.{ℤ, pos, ◌-ℤ◌}

-- DESK_MAX_WIDTH of frontend/theme.py
abbrev pub desk_max_width : ℕ
desk_max_width = 320

unfoldable pub cell_width : ℕ → ℕ
cell_width w = min w desk_max_width

-- `int((w - cell_w) / 2 + DESK_MARGIN / 2)`
unfoldable pub desk_left : ℕ → ℕ
unfolding cell_width
desk_left w = (w - cell_width w) / 2 + desk_margin / 2

-- `int(cell_w - DESK_MARGIN)`, which is negative in a narrow window.
unfoldable pub desk_width : ℕ → ℤ
unfolding cell_width
desk_width w = pos (cell_width w) -ℤ pos desk_margin

-- In a window that is no narrower than the margin the desks lie inside it and in its middle: the
-- free space to the right is that to the left or one pixel more.
pub desk_column_lem :
    (w : ℕ)
    → desk_margin ≤ w
    → (width : ℕ) × (desk_width w ≡ pos width)
      × (desk_left w + width + desk_left w ≤ w)
      × (w ≤ desk_left w + width + desk_left w + 1)
unfolding desk_left desk_width cell_width ◌-ℤ◌
desk_column_lem w h = (cell_width w - desk_margin, ground arith, ground arith, ground arith)
