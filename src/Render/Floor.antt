-- ===== src/Render/Floor.antt =====
-- `draw_background` of frontend/render.py: the tiles of the floor, and its cache. `S` is the type
-- of pygame's surfaces, and `surface` gives that of a list of fills.
use silicon_office.Prelude.{
  ℕ, zero, suc, ◌+◌, ◌-◌, ◌*◌, ◌/◌, ◌%◌, ◌<◌, ◌≡◌, refl, ◌∙◌, Bool, ◌&&◌, Option, none, some, List,
  [], ◌∷◌, ◌++◌, arith, if◌then◌else◌, eqb, leb, ltb, All, Bool-cases, Option-cases, inl, inr, sym,
}
use silicon_office.Sprites.Frames.{Color}

-- _TILE_SIZE
abbrev pub tile_size : ℕ
tile_size = 48

-- FLOOR_COLOR_A and FLOOR_COLOR_B of frontend/theme.py
abbrev pub floor_color_a : Color
floor_color_a = record { red = 44; green = 47; blue = 58 }

abbrev pub floor_color_b : Color
floor_color_b = record { red = 40; green = 43; blue = 53 }

-- A fill of a square of the size of a tile.
pub record Tile : Type 0 where
  pub color : Color
  pub left : ℕ
  pub top : ℕ

-- `len(range(0, n, _TILE_SIZE))`
unfoldable pub steps : ℕ → ℕ
steps n = (n + (tile_size - 1)) / tile_size

unfoldable pub tile : ℕ → ℕ → Tile
tile tx ty = record {
  color = if eqb ((tx / tile_size + ty / tile_size) % 2) 0 then floor_color_a else floor_color_b;
  left = tx;
  top = ty;
}

-- The first `cols` tiles of a row, and the first `rows` rows, from the left and from the top.
unfoldable pub tile_row : ℕ → ℕ → List Tile
unfolding tile
tile_row ty zero = []
tile_row ty (suc cols) = tile_row ty cols ++ tile (cols * tile_size) ty ∷ []

unfoldable pub tile_rows : ℕ → ℕ → List Tile
unfolding tile_row
tile_rows cols zero = []
tile_rows cols (suc rows) = tile_rows cols rows ++ tile_row (rows * tile_size) cols

-- The fills of a floor of some width and height.
unfoldable pub tiles : ℕ → ℕ → List Tile
unfolding tile_rows steps
tiles w h = tile_rows (steps w) (steps h)

unfoldable pub covers : Tile → ℕ → ℕ → Bool
covers t x y =
    leb t.left x && ltb x (t.left + tile_size) && (leb t.top y && ltb y (t.top + tile_size))

-- The colour of a pixel after the fills: that of the last that covers it.
unfoldable pub pixel : List Tile → ℕ → ℕ → Option Color
pixel [] x y = none
pixel (t ∷ ts) x y = elim (pixel ts x y) [
  | some c ↦ some c
  | none ↦ if covers t x y then some t.color else none
]

pixel-append :
    (xs ys : List Tile) (x y : ℕ)
    → pixel (xs ++ ys) x y ≡ (elim (pixel ys x y) [ some c ↦ some c | none ↦ pixel xs x y ])
unfolding pixel
pixel-append [] ys x y = ground arith
pixel-append (t ∷ xs) ys x y = ground (arith, pixel-append xs ys x y)

-- The colour of a square of the floor.
abbrev pub shade : ℕ → ℕ → Color
shade column row = if eqb ((column + row) % 2) 0 then floor_color_a else floor_color_b

covers-tile :
    (c r x y : ℕ)
    → covers (tile (c * tile_size) (r * tile_size)) x y
      ≡ (eqb (x / tile_size) c && eqb (y / tile_size) r)
unfolding covers tile
covers-tile c r x y = ground arith

color-tile : (c r : ℕ) → (tile (c * tile_size) (r * tile_size)).color ≡ shade c r
unfolding tile
color-tile c r = ground arith

pixel-one :
    (c r x y : ℕ)
    → pixel (tile (c * tile_size) (r * tile_size) ∷ []) x y
      ≡ (if eqb (x / tile_size) c && eqb (y / tile_size) r then some (shade c r) else none)
unfolding pixel
pixel-one c r x y = rw (covers-tile c r x y, color-tile c r) refl

pixel-tile_row :
    (r cols x y : ℕ)
    → pixel (tile_row (r * tile_size) cols) x y ≡ (
        if ltb (x / tile_size) cols && eqb (y / tile_size) r
        then some (shade (x / tile_size) r)
        else none)
unfolding tile_row
pixel-tile_row r zero x y = unfold pixel in ground arith
pixel-tile_row r (suc cols) x y =
    pixel-append (tile_row (r * tile_size) cols) (tile (cols * tile_size) (r * tile_size) ∷ []) x y
    ∙ ground (arith, pixel-one cols r x y, pixel-tile_row r cols x y)

pixel-tile_rows :
    (cols rows x y : ℕ)
    → pixel (tile_rows cols rows) x y ≡ (
        if ltb (x / tile_size) cols && ltb (y / tile_size) rows
        then some (shade (x / tile_size) (y / tile_size))
        else none)
unfolding tile_rows
pixel-tile_rows cols zero x y = unfold pixel in ground arith
pixel-tile_rows cols (suc rows) x y =
    pixel-append (tile_rows cols rows) (tile_row (rows * tile_size) cols) x y
    ∙ ground (arith, pixel-tile_row rows cols x y, pixel-tile_rows cols rows x y)

-- The floor has no holes: each pixel of a window of any size is painted, and its colour is that of
-- the chessboard of tiles, by the parity of its column and row.
pub pixel-tiles :
    (w h x y : ℕ)
    → x < w
    → y < h
    → pixel (tiles w h) x y ≡ some (shade (x / tile_size) (y / tile_size))
unfolding tiles steps
pixel-tiles w h x y p q = pixel-tile_rows (steps w) (steps h) x y ∙ ground arith

module _ {S : Type 0} (surface : List Tile → S) where
  -- `_background_cache.get(size)`
  unfoldable pub find : ℕ → ℕ → List ((ℕ × ℕ) × S) → Option S
  find w h [] = none
  find w h (((v, g), s) ∷ rest) = if eqb v w && eqb g h then some s else find w h rest

  -- `draw_background`: the surface that is shown, and the cache.
  unfoldable pub draw_background : List ((ℕ × ℕ) × S) → ℕ → ℕ → S × List ((ℕ × ℕ) × S)
  unfolding tiles find
  draw_background cache w h = elim (find w h cache) [
    | some s ↦ (s, cache)
    | none ↦ let s = surface (tiles w h) in (s, ((w, h), s) ∷ cache)
  ]

  -- Each cached surface is the floor of its size.
  abbrev pub IsFloor : ((ℕ × ℕ) × S) → Type 0
  IsFloor ((w, h), s) = s ≡ surface (tiles w h)

  find-IsFloor :
      (cache : List ((ℕ × ℕ) × S)) (w h : ℕ) (s : S)
      → All IsFloor cache
      → find w h cache ≡ some s
      → s ≡ surface (tiles w h)
  unfolding find
  find-IsFloor [] w h s a e = let impossible : ⊥ = ground arith in absurd impossible
  find-IsFloor (((v, g), r) ∷ rest) w h s (own, a) e = elim (Bool-cases (eqb v w && eqb g h)) [
    | inl q ↦
        let same_w : v ≡ w = ground arith in
        let same_h : g ≡ h = ground arith in
        let same : r ≡ s = ground arith in sym same ∙ own ∙ rw (same_w, same_h) refl
    | inr q ↦ find-IsFloor rest w h s a (ground arith)
  ]

  -- The cache never shows the floor of another size: what is shown is the floor of the window's
  -- size, and the cache stays so.
  pub draw_background-IsFloor :
      (cache : List ((ℕ × ℕ) × S)) (w h : ℕ)
      → All IsFloor cache
      → ((draw_background cache w h).0 ≡ surface (tiles w h))
        × All IsFloor (draw_background cache w h).1
  unfolding draw_background
  draw_background-IsFloor cache w h a = elim (Option-cases (find w h cache)) [
    | inl e ↦ rw (e, draw_background) (refl, (refl, a))
    | inr (s, e) ↦ rw (e, draw_background) (find-IsFloor cache w h s a e, a)
  ]
