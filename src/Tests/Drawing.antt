-- ===== src/Tests/Drawing.antt =====
-- Tests of what is drawn: the picture of a window, a desk, the floor, and the places of texts.
use silicon_office.Prelude.{ℕ, ◌-◌, ◌≡◌, refl, some, [], ◌∷◌, ◌++◌, map, All, arith, ◌*◌}
use silicon_office.Prelude.Dict.{keys}
use silicon_office.Schema.{make_snapshot_message}
use silicon_office.Layout.Column.{desk_left, cell_width}
use silicon_office.Office.{App, from_daemon, drain_queue}
use silicon_office.Office.Consistent.{drain_queue-IsConsistent}
use silicon_office.Office.Picture.{Strengths, office_height, figures, picture}
use silicon_office.Office.Painted.{IsAtDesk, picture-IsConsistent}
use silicon_office.Sprites.{width, height, pixel_scale}
use silicon_office.Render.{color_for_state}
use silicon_office.Render.Figure.{desk_marks}
use silicon_office.Render.Inside.{IsInside, desk_marks-IsInside}
use silicon_office.Render.Floor.{tiles, pixel, floor_color_b, pixel-tiles}
use silicon_office.Tests.Registry.{agents}
use silicon_office.Tests.Frontend.{
  as_is, as_is-IsSetOrder, fresh, fresh-IsConsistent, clock, expired,
}

abbrev pub strengths : Strengths ℕ ℕ
strengths = record {
  full = 255;
  unlit = 0;
  spawn_alpha = λ now started. now - started;
  flash_boost = λ now since. now - since;
  despawn_alpha = λ now started. now - started;
}

abbrev shown : App ℕ ℕ
shown = drain_queue as_is fresh ((from_daemon (make_snapshot_message agents 1), 1, clock) ∷ [])

picture-IsConsistent_example :
    let drawn = figures (picture expired expired strengths 500 shown 9) in
    (map (λ x. x.0) drawn ≡ keys shown.agents ++ keys shown.ghosts)
    × All (IsAtDesk shown.layout (office_height 500)) drawn
picture-IsConsistent_example = picture-IsConsistent expired expired strengths 500 shown 9 (
    drain_queue-IsConsistent as_is as_is-IsSetOrder fresh
      ((from_daemon (make_snapshot_message agents 1), 1, clock) ∷ []) fresh-IsConsistent)

desk_marks-IsInside_example : All (IsInside 292 200) (
    desk_marks "working"
      (color_for_state "working")
      292
      200
      (width * pixel_scale)
      (height * pixel_scale))
desk_marks-IsInside_example =
    desk_marks-IsInside "working" (color_for_state "working") 292 (omega arith)

-- A pixel of the second tile of the first row.
pixel-tiles_example : pixel (tiles 360 500) 50 7 ≡ some floor_color_b
pixel-tiles_example = pixel-tiles 360 500 50 7 (omega arith) (omega arith)

column_run : desk_left 360 ≡ 34
unfolding desk_left cell_width
column_run = refl
