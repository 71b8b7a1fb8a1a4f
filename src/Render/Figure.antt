-- ===== src/Render/Figure.antt =====
-- What `draw_agent` of frontend/render.py puts on the surface of a desk, as the list of its
-- drawing calls. Left out: rounded corners, line widths, and the radius and the alpha of the
-- ring, which come from the clock.
use silicon_office.Prelude.{
  ℕ, ◌+◌, ◌-◌, ◌*◌, ◌/◌, min, max, String, ◌==◌, ◌||◌, List, [], ◌∷◌, ◌++◌, if◌then◌else◌,
}
use silicon_office.Prelude.Int.{ℤ, pos, pos_part, ◌+ℤ◌, ◌-ℤ◌, half}
use silicon_office.Sprites.{pixel_scale}
use silicon_office.Sprites.Frames.{Color}

pub record Rect : Type 0 where
  pub left : ℤ
  pub top : ℤ
  pub width : ℕ
  pub height : ℕ

-- A filled rectangle, its border, a filled circle, the ring of a session that asks (by its
-- centre), the figure and its hands (by their corner).
pub data Mark : Type 0 where
  block outline : Color → Rect → Mark
  bulb : Color → ℤ → ℤ → ℕ → Mark
  ring : Color → ℤ → ℤ → Mark
  figure hands : ℤ → ℤ → Mark

abbrev rgb : ℕ → ℕ → ℕ → Color
rgb r g b = record { red = r; green = g; blue = b }

-- DESK_COLOR, DESK_TOP_COLOR, PAPER_COLOR and PAPER_LINE_COLOR of frontend/theme.py
abbrev pub desk_color : Color
desk_color = rgb 92 68 48

abbrev pub desk_top_color : Color
desk_top_color = rgb 120 90 64

abbrev pub paper_color : Color
paper_color = rgb 54 57 68

abbrev pub paper_line_color : Color
paper_line_color = rgb 150 155 168

-- _PAPER_GAP
abbrev pub paper_gap : ℕ
paper_gap = 3

-- HAND_ROW_INDEX of frontend/sprites.py
abbrev pub hand_row_index : ℕ
hand_row_index = 10

-- `cell`, from `avail_h`
unfoldable pub cell_of : ℕ → ℕ
cell_of avail_h = max 2 (min pixel_scale (avail_h / 4))

-- A line of a paper, in the row `row`.
unfoldable pub paper_line : ℕ → ℤ → ℤ → ℕ → Mark
paper_line cell x top_y row =
    let line_h = max 1 (cell / 3) in
    block paper_line_color (record {
      left = x +ℤ pos (cell / 2);
      top = top_y +ℤ pos (row * cell) -ℤ pos (line_h / 2);
      width = 3 * cell - cell;
      height = line_h;
    })

unfoldable pub paper : ℕ → ℤ → ℤ → List Mark
unfolding paper_line
paper cell x top_y =
    block paper_color (record { left = x; top = top_y; width = 3 * cell; height = 4 * cell })
    ∷ paper_line cell x top_y 1
    ∷ paper_line cell x top_y 2
    ∷ paper_line cell x top_y 3
    ∷ []

-- `_draw_papers`, of the desk's middle and bottom: the maximum with 1 makes the same of a
-- difference below 0 as of 0.
unfoldable pub draw_papers : ℤ → ℤ → ℤ → List Mark
unfolding paper cell_of
draw_papers centerx bottom top_y =
    let cell = cell_of (max 1 (pos_part (bottom -ℤ top_y))) in
    let left_x = centerx -ℤ pos ((3 * cell * 2 + paper_gap) / 2) in
    let right_x = left_x +ℤ pos (3 * cell) +ℤ pos paper_gap in
    paper cell left_x top_y ++ paper cell right_x top_y

-- The ring behind a figure that asks.
unfoldable pub asking_ring : String → Color → ℕ → ℤ → ℕ → List Mark
asking_ring state color w sprite_y sh =
    if state == "asking" then ring color (pos (w / 2)) (sprite_y +ℤ pos (sh / 2)) ∷ [] else []

-- The papers and the hands over them, of a figure at work.
unfoldable pub work_marks : String → ℕ → ℕ → ℤ → ℤ → List Mark
unfolding draw_papers
work_marks state w h sprite_x sprite_y =
    let hand_y = hand_row_index * pixel_scale in
    if state == "working" || state == "asking"
    then draw_papers (pos (w / 2)) (pos h)
        (sprite_y +ℤ pos hand_y +ℤ pos pixel_scale +ℤ pos paper_gap)
      ++ hands sprite_x (sprite_y +ℤ pos hand_y) ∷ []
    else []

-- The status light: its square and its bulb.
unfoldable pub light : Color → ℕ → ℕ → ℕ → List Mark
light color w h desk_h =
    let radius = min 10 (max 5 (desk_h / 3)) in
    let badge_x = pos w -ℤ pos radius -ℤ pos 4 in
    let top = pos (h - desk_h) -ℤ pos (radius * 2) in
    block color
      (record { left = badge_x -ℤ pos radius; top = top; width = radius * 2; height = radius * 2 })
    ∷ bulb color badge_x top radius
    ∷ []

-- The calls on `desk_surface`, of the size `w` by `h`, with a figure of the size `sw` by `sh`.
unfoldable pub desk_marks : String → Color → ℕ → ℕ → ℕ → ℕ → List Mark
unfolding asking_ring work_marks light
desk_marks state color w h sw sh =
    let desk_h = h / 3 in
    let desk : Rect = record { left = pos 0; top = pos (h - desk_h); width = w; height = desk_h } in
    let sprite_x = half (pos w -ℤ pos sw) in
    let sprite_y = pos (h - desk_h) -ℤ pos sh +ℤ pos 10 in
    asking_ring state color w sprite_y sh
    ++ (figure sprite_x sprite_y
        ∷ block desk_color desk
        ∷ outline desk_top_color desk
        ∷ (work_marks state w h sprite_x sprite_y ++ light color w h desk_h))
