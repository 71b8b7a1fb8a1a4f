-- ===== src/Sprites/Fits.antt =====
-- The figures of frontend/sprites.py fit their surface.
use silicon_office.Prelude.{
  ℕ, zero, suc, ◌+◌, ◌*◌, ◌%◌, ◌≤◌, ◌<◌, ◌≡◌, refl, String, none, some, get_or, List, [], ◌∷◌,
  length, Bool, true, false, ◌&&◌, ◌==◌, All, All-append, arith, Bool-cases, inl, inr, str_dec,
  Option-cases,
}
use silicon_office.Prelude.Dict.{Dict, lookup}
use native.Mathlib.Nat.{mod-lt}
use silicon_office.Sprites.Frames.{all_frames, state_frame_sequence, idle_sequence}
use silicon_office.Sprites.{
  width, height, pixel_scale, nth, sequence_for, frame_name_for, Fill, color_of, paint_cell,
  paint_row, paint_rows, render_frame, columns, rows_have_width, has_size,
}

-- The fill lies on the surface of `sprite_size()`.
pub IsInside : Fill → Type 0
IsInside f =
    (f.left + pixel_scale ≤ width * pixel_scale) × (f.top + pixel_scale ≤ height * pixel_scale)

paint_row-IsInside :
    (x y : ℕ) (row : String)
    → x + columns row ≤ width
    → y < height
    → All IsInside (paint_row x y row)
unfolding paint_row paint_cell columns IsInside
paint_row-IsInside x y String.[] hx hy = tt
paint_row-IsInside x y (String.◌∷◌ ch row) hx hy =
    let rest = paint_row-IsInside (suc x) y row (omega arith) hy in
    elim (Option-cases (color_of (String.◌∷◌ ch String.[]))) [
      | inl e ↦ rw (e, paint_cell) rest
      | inr (c, e) ↦ rw (e, paint_cell) ((omega arith, omega arith), rest)
    ]

paint_rows-IsInside :
    (y : ℕ) (rows : List String)
    → y + length rows ≤ height
    → rows_have_width rows ≡ true
    → All IsInside (paint_rows y rows)
unfolding paint_rows rows_have_width
paint_rows-IsInside y [] hy w = tt
paint_rows-IsInside y (row ∷ rows) hy w =
    All-append IsInside (paint_row 0 y row) (paint_rows (suc y) rows)
      (paint_row-IsInside 0 y row (ground arith) (omega arith))
      (paint_rows-IsInside (suc y) rows (omega arith) (ground arith))

render_frame-IsInside :
    (grid : List String) → has_size grid ≡ true → All IsInside (render_frame grid)
unfolding has_size render_frame
render_frame-IsInside grid h = paint_rows-IsInside 0 grid (ground arith) (ground arith)

-- Whether a name is that of a frame with the right size, and a sequence has only such names, and
-- one at least.
unfoldable is_known : String → Bool
is_known name = elim (lookup name all_frames) [ none ↦ false | some grid ↦ has_size grid ]

unfoldable all_known : List String → Bool
all_known [] = true
all_known (name ∷ names) = is_known name && all_known names

unfoldable is_playable : List String → Bool
is_playable [] = false
is_playable (name ∷ names) = all_known (name ∷ names)

unfoldable all_playable : Dict (List String) → Bool
all_playable [] = true
all_playable ((_, names) ∷ d) = is_playable names && all_playable d

lookup-all_playable :
    (d : Dict (List String)) (k : String)
    → all_playable d ≡ true
    → is_playable (get_or (lookup k d) idle_sequence) ≡ true
unfolding all_playable lookup
lookup-all_playable [] k h =
    unfold is_playable all_known is_known has_size rows_have_width columns lookup str_dec in refl
lookup-all_playable ((j, names) ∷ d) k h = elim (Bool-cases (k == j)) [
  | inl e ↦ rw e (ground arith)
  | inr e ↦ rw e (lookup-all_playable d k (ground arith))
]

sequence_for-is_playable : (state : String) → is_playable (sequence_for state) ≡ true
unfolding sequence_for
sequence_for-is_playable state = lookup-all_playable state_frame_sequence state (
    unfold all_playable is_playable all_known is_known has_size rows_have_width columns lookup
      str_dec in
    refl)

nth-all_known :
    (names : List String) (i : ℕ)
    → all_known names ≡ true
    → i < length names
    → (name : String) × (nth names i ≡ some name) × (is_known name ≡ true)
unfolding nth all_known
nth-all_known [] i h p = let impossible : ⊥ = ground arith in absurd impossible
nth-all_known (name ∷ names) zero h p = (name, refl, ground arith)
nth-all_known (name ∷ names) (suc i) h p = nth-all_known names i (ground arith) (omega arith)

playable_nth :
    (names : List String) (steps : ℕ)
    → is_playable names ≡ true
    → (name : String) × (nth names (steps % length names) ≡ some name) × (is_known name ≡ true)
unfolding is_playable
playable_nth [] steps h = let impossible : ⊥ = ground arith in absurd impossible
playable_nth (name ∷ names) steps h =
    nth-all_known (name ∷ names) (steps % length (name ∷ names)) h (mod-lt steps (omega arith))

known_grid :
    (name : String)
    → is_known name ≡ true
    → (grid : List String) × (lookup name all_frames ≡ some grid) × (has_size grid ≡ true)
unfolding is_known
known_grid name h = elim (Option-cases (lookup name all_frames)) [
  | inl e ↦ let impossible : ⊥ = ground (arith, e, h) in absurd impossible
  | inr (grid, e) ↦ (grid, e, rw (e, is_known) at h)
]

-- Whatever the state is called and whenever it is drawn, `frame_name_for` names a frame of the
-- table, and every fill that paints it lies on the surface.
pub frame_name_for_lem :
    (state : String) (steps : ℕ)
    → (name : String) × (grid : List String) × (frame_name_for state steps ≡ some name)
      × (lookup name all_frames ≡ some grid)
      × All IsInside (render_frame grid)
unfolding frame_name_for
frame_name_for_lem state steps =
    let (name, found, known) =
      playable_nth (sequence_for state) steps (sequence_for-is_playable state) in
    let (grid, stored, sized) = known_grid name known in
    (name, grid, found, stored, render_frame-IsInside grid sized)
