-- ===== src/Display.antt =====
-- `_smallest_display_bounds` of frontend/main.py: the display that the window is put on. The
-- bounds that SDL reports are the argument; a width and a height are not negative.
use silicon_office.Prelude.Int.{ℤ, pos, ◌+ℤ◌, ◌-ℤ◌}
use silicon_office.Prelude.{
  ℕ, ◌*◌, ◌≤◌, ◌≡◌, refl, ◌⊎◌, inl, inr, Option, none, some, List, [], ◌∷◌, All, ltb, if◌then◌else◌,
  arith, Bool-cases,
}

pub record Bounds : Type 0 where
  pub left : ℤ
  pub top : ℤ
  pub w : ℕ
  pub h : ℕ

abbrev pub area : Bounds → ℕ
area b = b.w * b.h

-- The body of the loop: `smallest` after one more display.
unfoldable pub smaller : Option Bounds → Bounds → Option Bounds
smaller none rect = some rect
smaller (some smallest) rect = if ltb (area rect) (area smallest) then some rect else some smallest

unfoldable pub scan : Option Bounds → List Bounds → Option Bounds
scan smallest [] = smallest
scan smallest (rect ∷ rects) = scan (smaller smallest rect) rects

-- `none` stands for the failing assert.
unfoldable pub smallest_display_bounds : List Bounds → Option Bounds
smallest_display_bounds rects = scan none rects

abbrev pub Contains : Bounds → List Bounds → Type 0
Contains b [] = ⊥
Contains b (x ∷ xs) = (b ≡ x) ⊎ Contains b xs

abbrev pub IsLeast : Bounds → List Bounds → Type 0
IsLeast b rects = All (λ r. area b ≤ area r) rects

scan_lem :
    (b : Bounds) (rects : List Bounds)
    → (found : Bounds) × (scan (some b) rects ≡ some found)
      × ((found ≡ b) ⊎ Contains found rects)
      × (area found ≤ area b)
      × IsLeast found rects
unfolding scan smaller
scan_lem b [] = (b, refl, inl refl, omega arith, tt)
scan_lem b (r ∷ rects) = elim (Bool-cases (ltb (area r) (area b))) [
  | inl e ↦
      let (found, same, origin, least, all) = scan_lem r rects in
      (found, rw e same, inr origin, ground arith, (least, all))
  | inr e ↦
      let (found, same, origin, least, all) = scan_lem b rects in
      (
        found,
        rw e same,
        elim origin [ inl o ↦ inl o | inr o ↦ inr (inr o) ],
        least,
        (ground arith, all),
      )
]

-- With a display at all, the result is one of the displays, and no display has a smaller area.
pub smallest_display_bounds_lem :
    (rect : Bounds) (rects : List Bounds)
    → (found : Bounds) × (smallest_display_bounds (rect ∷ rects) ≡ some found)
      × Contains found (rect ∷ rects)
      × IsLeast found (rect ∷ rects)
unfolding smallest_display_bounds scan smaller
smallest_display_bounds_lem rect rects =
    let (found, same, origin, least, all) = scan_lem rect rects in
    (found, same, origin, (least, all))

-- SIDEBAR_WIDTH of frontend/theme.py
abbrev pub sidebar_width : ℕ
sidebar_width = 360

-- The position and the size that `App.__init__` asks for.
unfoldable pub window_bounds : Bounds → Bounds
window_bounds disp = record {
  left = disp.left +ℤ pos disp.w -ℤ pos sidebar_width;
  top = disp.top;
  w = sidebar_width;
  h = disp.h;
}

-- The window stands along the right edge of its display, from its top to its bottom.
pub window_bounds_lem :
    (disp : Bounds)
    → let window = window_bounds disp in
      (window.left +ℤ pos window.w ≡ disp.left +ℤ pos disp.w)
      × (window.top ≡ disp.top)
      × (window.h ≡ disp.h)
unfolding window_bounds ◌+ℤ◌ ◌-ℤ◌
window_bounds_lem disp = (ground arith, refl, refl)
