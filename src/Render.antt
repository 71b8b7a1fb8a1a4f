-- ===== src/Render.antt =====
-- frontend/render.py and frontend/theme.py: the caches of the drawing code and the colour of a
-- state. `S` is the type of pygame's surfaces, and `draw` is what draws one: `font.render` on a
-- text and a colour. The drawing is in the children.
pub mod Figure
pub mod Inside
pub mod Floor
pub mod Texts
pub mod Cached
use silicon_office.Prelude.{
  ℕ, String, ◌==◌, ◌≡◌, refl, ap, ◌∙◌, Bool, ◌&&◌, none, some, get_or, [], ◌∷◌, eqb, if◌then◌else◌,
  arith, Option-cases, Bool-cases, inl, inr,
}
use silicon_office.Prelude.Dict.{Dict, lookup, insert, lookup-insert}
use silicon_office.Sprites.Frames.{Color}

abbrev rgb : ℕ → ℕ → ℕ → Color
rgb r g b = record { red = r; green = g; blue = b }

-- STATE_COLORS
abbrev pub state_colors : Dict Color
state_colors =
    ("idle", rgb 90 130 200)
    ∷ ("working", rgb 90 190 110)
    ∷ ("asking", rgb 235 165 60)
    ∷ ("error", rgb 215 70 70)
    ∷ []

unfoldable pub color_for_state : String → Color
unfolding lookup
color_for_state state = get_or (lookup state state_colors) (rgb 90 130 200)

-- STATE_LABELS
abbrev pub state_labels : Dict String
state_labels =
    ("idle", "Idle") ∷ ("working", "Working") ∷ ("asking", "Asking") ∷ ("error", "Error") ∷ []

unfoldable pub label_for_state : String → String
unfolding lookup
label_for_state state = get_or (lookup state state_labels) state

abbrev pub same_color : Color → Color → Bool
same_color c d = eqb c.red d.red && (eqb c.green d.green && eqb c.blue d.blue)

-- An entry of `TextCache._cache`.
pub record Rendered (S : Type 0) : Type 0 where
  pub text : String
  pub color : Color
  pub surface : S

module _ {S : Type 0} (draw : String → Color → S) where
  unfoldable pub render_anew : Dict (Rendered S) → String → String → Color → S × Dict (Rendered S)
  render_anew cache key text color =
      let surface = draw text color in
      (surface, insert key (record { text = text; color = color; surface = surface }) cache)

  -- `TextCache.get`; a key is written as one text.
  unfoldable pub get : Dict (Rendered S) → String → String → Color → S × Dict (Rendered S)
  get cache key text color = elim (lookup key cache) [
    | none ↦ render_anew cache key text color
    | some cached ↦
        if cached.text == text && same_color cached.color color
        then (cached.surface, cache)
        else render_anew cache key text color
  ]

  -- Each surface in the cache is that of the text and the colour beside it.
  unfoldable pub IsSound : Dict (Rendered S) → Type 0
  IsSound cache =
      (key : String) (r : Rendered S) → lookup key cache ≡ some r → r.surface ≡ draw r.text r.color

  render_anew_lem :
      (cache : Dict (Rendered S)) (key text : String) (color : Color)
      → IsSound cache
      → ((render_anew cache key text color).0 ≡ draw text color)
        × IsSound (render_anew cache key text color).1
  unfolding render_anew IsSound
  render_anew_lem cache key text color s = (
    refl,
    λ k r h.
        let h' = rw lookup-insert at h in
        elim (Bool-cases (k == key)) [
          | inl e ↦ ground (arith, h', e)
          | inr e ↦ s k r (ground (arith, h', e))
        ],
  )

  -- A cached text is never stale: `get` returns what rendering the text in the colour asked for
  -- would, and the cache stays sound.
  pub get_lem :
      (cache : Dict (Rendered S)) (key text : String) (color : Color)
      → IsSound cache
      → ((get cache key text color).0 ≡ draw text color) × IsSound (get cache key text color).1
  unfolding get
  get_lem cache key text color s = elim (Option-cases (lookup key cache)) [
    | inl e ↦ rw (e, get) (render_anew_lem cache key text color s)
    | inr (r, e) ↦ elim (Bool-cases (r.text == text && same_color r.color color)) [
      | inl q ↦
          let surface : r.surface ≡ draw r.text r.color = unfold IsSound in s key r e in
          let same_text : r.text ≡ text = ground arith in
          let same : r.color ≡ color = ground arith in
          rw (e, get) (rw q (surface ∙ ap (λ t. draw t r.color) same_text ∙ ap (draw text) same, s))
      | inr q ↦ rw (e, get) (rw q (render_anew_lem cache key text color s))
    ]
  ]
