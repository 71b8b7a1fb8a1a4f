-- ===== src/Render/Inside.antt =====
-- The drawing calls of `draw_agent` in frontend/render.py stay on the surface of the desk.
use silicon_office.Prelude.{
  ℕ, ◌+◌, ◌-◌, ◌*◌, ◌/◌, ◌≤◌, String, ◌==◌, ◌≡◌, ◌||◌, [], ◌∷◌, All, All-append, arith, Bool-cases,
  inl, inr,
}
use silicon_office.Prelude.Int.{ℤ, pos, pos_part, neg_part, ◌+ℤ◌, ◌-ℤ◌, half}
use silicon_office.Sprites.{pixel_scale, width, height}
use silicon_office.Sprites.Frames.{Color}
use silicon_office.Render.Figure.{
  Mark, block, outline, bulb, ring, figure, hands, cell_of, paper_line, paper, draw_papers,
  asking_ring, work_marks, light, desk_marks, hand_row_index,
}

-- From `x` on, `size` pixels lie between 0 and `limit`.
abbrev pub IsWithin : ℤ → ℕ → ℕ → Type 0
IsWithin x size limit = (neg_part x ≡ 0) × (pos_part x + size ≤ limit)

-- A figure's surface is that of Sprites, and its hands are a row of it.
unfoldable pub IsInside : ℕ → ℕ → Mark → Type 0
IsInside w h (block _ r) = IsWithin r.left r.width w × IsWithin r.top r.height h
IsInside w h (outline _ r) = IsWithin r.left r.width w × IsWithin r.top r.height h
IsInside w h (bulb _ x y radius) =
    IsWithin (x -ℤ pos radius) (radius * 2) w × IsWithin (y -ℤ pos radius) (radius * 2) h
IsInside w h (ring _ x y) = IsWithin x 0 w × IsWithin y 0 h
IsInside w h (figure x y) = IsWithin x (width * pixel_scale) w × IsWithin y (height * pixel_scale) h
IsInside w h (hands x y) = IsWithin x (width * pixel_scale) w × IsWithin y pixel_scale h

light-IsInside : (color : Color) (w : ℕ) → 70 ≤ w → All (IsInside w 200) (light color w 200 66)
unfolding light IsInside ◌+ℤ◌ ◌-ℤ◌
light-IsInside color w h = ground arith

draw_papers-IsInside :
    (w : ℕ) → 70 ≤ w → All (IsInside w 200) (draw_papers (pos (w / 2)) (pos 200) (pos 140))
unfolding draw_papers paper paper_line cell_of IsInside ◌+ℤ◌ ◌-ℤ◌
draw_papers-IsInside w h = ground arith

asking_ring-IsInside :
    (state : String) (color : Color) (w : ℕ)
    → All (IsInside w 200) (asking_ring state color w (pos 60) 84)
unfolding asking_ring IsInside ◌+ℤ◌
asking_ring-IsInside state color w = elim (Bool-cases (state == "asking")) [
  | inl e ↦ rw e (ground arith)
  | inr e ↦ rw e tt
]

work_marks-IsInside :
    (state : String) (w : ℕ)
    → 70 ≤ w
    → All (IsInside w 200) (work_marks state w 200 (pos ((w - 70) / 2)) (pos 60))
unfolding work_marks IsInside ◌+ℤ◌
work_marks-IsInside state w h = elim (Bool-cases (state == "working" || state == "asking")) [
  | inl e ↦ rw e (
      All-append (IsInside w 200) (draw_papers (pos (w / 2)) (pos 200) (pos 140))
        (hands (pos ((w - 70) / 2)) (pos 60 +ℤ pos (hand_row_index * pixel_scale)) ∷ [])
        (draw_papers-IsInside w h) (ground arith))
  | inr e ↦ rw e tt
]

half_room : (w : ℕ) → 70 ≤ w → half (pos w -ℤ pos 70) ≡ pos ((w - 70) / 2)
unfolding half ◌-ℤ◌
half_room w h = ground arith

-- Whatever the state, all that is drawn for a session stays on the surface of its desk, of which
-- the height is that of every desk, if the surface is no narrower than the figure: the figure,
-- the desk, the papers, the hands, the light, and the ring's middle.
pub desk_marks-IsInside :
    (state : String) (color : Color) (w : ℕ)
    → 70 ≤ w
    → All
        (IsInside w 200)
        (desk_marks state color w 200 (width * pixel_scale) (height * pixel_scale))
unfolding desk_marks IsInside ◌+ℤ◌ ◌-ℤ◌
desk_marks-IsInside state color w h = rw (half_room w h) (
    All-append (IsInside w 200) (asking_ring state color w (pos 60) 84) _
      (asking_ring-IsInside state color w)
      (
        ground arith,
        (
          ground arith,
          (
            ground arith,
            All-append (IsInside w 200) (work_marks state w 200 (pos ((w - 70) / 2)) (pos 60)) _
                (work_marks-IsInside state w h) (light-IsInside color w h),
          ),
        ),
      ))
