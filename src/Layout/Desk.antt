-- ===== src/Layout/Desk.antt =====
-- `desk_rect` of frontend/layout.py: the rows of the office, top and height; the left edge and
-- the width, which no slot changes, are in Layout/Column. The program's floats are exact here: a
-- length on the way is counted in quarters of a pixel per row, `4 * rows` to a pixel, in which
-- every quotient of the code is whole. `int` on a length that is not negative rounds down.
use silicon_office.Prelude.{
  ℕ, suc, ◌+◌, ◌-◌, ◌*◌, ◌/◌, ◌≤◌, ◌<◌, ◌≡◌, min, max, String, Option, none, some, arith, refl,
}
use native.Mathlib.Nat.{le-div_iff_mul-le, div-mul-le_self}
use silicon_office.Prelude.Dict.{lookup}
use silicon_office.Layout.{Layout}

abbrev desk_height : ℕ
desk_height = 200

abbrev pub desk_margin : ℕ
desk_margin = 28

abbrev pub desk_min_gap : ℕ
desk_min_gap = 4

-- `pitch`: the ideal one, or what the window's height leaves for a row, and no less than a desk
-- with the smallest gap.
unfoldable pub pitch : ℕ → ℕ → ℕ
pitch rows h =
    max ((desk_height + desk_min_gap) * (4 * rows))
      (min ((desk_height + desk_margin) * (4 * rows)) (4 * h))

-- `y_offset = max(0.0, (h - total_h) / 2)`: the subtraction on ℕ stops at 0.
unfoldable pub y_offset : ℕ → ℕ → ℕ
y_offset rows h = (h * (4 * rows) - pitch rows h * rows) / 2

-- `y_offset + slot * pitch + gap / 2`
unfoldable pub desk_y : ℕ → ℕ → ℕ → ℕ
unfolding y_offset pitch
desk_y rows h slot =
    y_offset rows h + slot * pitch rows h + (pitch rows h - desk_height * (4 * rows)) / 2

pub record DeskRow : Type 0 where
  pub top : ℕ
  pub height : ℕ

-- `int(y)` and `int(cell_h)`
unfoldable pub desk_row : ℕ → ℕ → ℕ → DeskRow
desk_row rows h slot = record { top = desk_y rows h slot / (4 * rows); height = desk_height }

unfoldable pub desk_rect : Layout → String → ℕ → Option DeskRow
unfolding desk_row
desk_rect l sid h = elim (lookup sid l.slot_of_session) [
  | none ↦ none
  | some slot ↦ some (desk_row l.rows h slot)
]

pitch_enough : (rows h : ℕ) → (desk_height + desk_min_gap) * (4 * rows) ≤ pitch rows h
unfolding pitch
pitch_enough rows h = omega arith

step_down :
    (rows h s d : ℕ)
    → desk_y rows h (suc (s + d)) ≡ desk_y rows h s + (pitch rows h + d * pitch rows h)
unfolding desk_y
step_down rows h s d = omega arith

next_floor : (u a b : ℕ) → 0 < u → a + 204 * u ≤ b → a / u + 204 ≤ b / u
next_floor u a b p h = (le-div_iff_mul-le p).1 (omega (arith, div-mul-le_self a u))

-- Of two sessions the one with the later slot sits lower by a desk and the smallest gap at least,
-- however small the window is: desks never overlap.
pub desks_apart :
    (l : Layout) (a b : String) (s d h : ℕ)
    → 0 < l.rows
    → lookup a l.slot_of_session ≡ some s
    → lookup b l.slot_of_session ≡ some (suc (s + d))
    → (p : DeskRow) × (q : DeskRow) × (desk_rect l a h ≡ some p)
      × (desk_rect l b h ≡ some q)
      × (p.top + p.height + desk_min_gap ≤ q.top)
unfolding desk_rect desk_row
desks_apart l a b s d h r ha hb = (
  desk_row l.rows h s,
  desk_row l.rows h (suc (s + d)),
  rw (ha, desk_rect) refl,
  rw (hb, desk_rect) refl,
  omega (
    arith,
    next_floor (4 * l.rows) (desk_y l.rows h s) (desk_y l.rows h (suc (s + d))) (omega arith)
        (omega (arith, step_down l.rows h s d, pitch_enough l.rows h)),
  ),
)
