-- ===== src/Render/Cached.antt =====
-- The texts of a desk in `draw_agent` of frontend/render.py, through the three text caches. A key
-- of a cache, a pair of the session id and a word, is written as one text.
use silicon_office.Prelude.{String, ◌<>◌, ◌≡◌, none, some}
use silicon_office.Prelude.Dict.{Dict}
use silicon_office.Sprites.Frames.{Color}
use silicon_office.Emitter.{prefix}
use silicon_office.Office.{Shown}
use silicon_office.Render.{Rendered, get, get_lem, IsSound, color_for_state}

-- TEXT_COLOR and SUBTEXT_COLOR of frontend/theme.py
abbrev pub text_color : Color
text_color = record { red = 235; green = 235; blue = 240 }

abbrev pub subtext_color : Color
subtext_color = record { red = 170; green = 175; blue = 185 }

module _ {T : Type 0} where
  -- `agent.get` with the defaults of `draw_agent`, which the empty dict takes.
  abbrev pub shown_id : Shown T → String
  shown_id none = ""
  shown_id (some a) = a.session_id

  abbrev pub shown_name : Shown T → String
  shown_name none = "?"
  shown_name (some a) = a.project_name

  abbrev pub shown_label : Shown T → String
  shown_label none = ""
  shown_label (some a) = a.action_label

  abbrev pub shown_state : Shown T → String
  shown_state none = "idle"
  shown_state (some a) = a.state

-- The caches of the window, one for each font, `draw` being what the fonts render.
pub record Fonts (S : Type 0) : Type 0 where
  pub name : String → Color → S
  pub label : String → Color → S
  pub id : String → Color → S

pub record Caches (S : Type 0) : Type 0 where
  pub name_cache : Dict (Rendered S)
  pub label_cache : Dict (Rendered S)
  pub id_cache : Dict (Rendered S)

module _ {S : Type 0} (fonts : Fonts S) where
  abbrev pub AreSound : Caches S → Type 0
  AreSound caches =
      IsSound fonts.name caches.name_cache
      × IsSound fonts.label caches.label_cache
      × IsSound fonts.id caches.id_cache

module _ {T S : Type 0} (fonts : Fonts S) where
  -- The surfaces of the id, the label and the name, in the order in which they are blitted, and
  -- the caches afterwards.
  unfoldable pub agent_texts : Shown T → Caches S → (S × S × S) × Caches S
  agent_texts agent caches =
      let sid = shown_id agent in
      let (name_surf, names) =
        get fonts.name caches.name_cache (sid <> " name") (shown_name agent) text_color in
      let (label_surf, labels) =
        get fonts.label caches.label_cache (sid <> " label") (shown_label agent)
          (color_for_state (shown_state agent)) in
      let (id_surf, ids) =
        get fonts.id caches.id_cache (sid <> " id") (prefix 8 sid) subtext_color in
      (
        (id_surf, label_surf, name_surf),
        record { name_cache = names; label_cache = labels; id_cache = ids },
      )

  -- The texts at a desk are never stale: with sound caches the surfaces are those of the first
  -- eight characters of the session id, of the label that the record now has in the colour of its
  -- state, and of its project name; and the caches stay sound.
  pub agent_texts_lem :
      (agent : Shown T) (caches : Caches S)
      → AreSound fonts caches
      → let ((id_surf, label_surf, name_surf), caches') = agent_texts agent caches in
        (id_surf ≡ fonts.id (prefix 8 (shown_id agent)) subtext_color)
        × (label_surf ≡ fonts.label (shown_label agent) (color_for_state (shown_state agent)))
        × (name_surf ≡ fonts.name (shown_name agent) text_color)
        × AreSound fonts caches'
  unfolding agent_texts
  agent_texts_lem agent caches (n, l, i) =
      let sid = shown_id agent in
      let (name, names) =
        get_lem fonts.name caches.name_cache (sid <> " name") (shown_name agent) text_color n in
      let (label, labels) =
        get_lem fonts.label caches.label_cache (sid <> " label") (shown_label agent)
          (color_for_state (shown_state agent)) l in
      let (id, ids) =
        get_lem fonts.id caches.id_cache (sid <> " id") (prefix 8 sid) subtext_color i in
      (id, label, name, (names, labels, ids))
