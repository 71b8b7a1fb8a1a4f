-- ===== src/Sprites/Frames.antt =====
-- The grids of frontend/sprites.py, and their palette.
use silicon_office.Prelude.{ℕ, String, Option, none, some, List, [], ◌∷◌}
use silicon_office.Prelude.Dict.{Dict}

-- A colour (r, g, b).
pub record Color : Type 0 where
  pub red : ℕ
  pub green : ℕ
  pub blue : ℕ

abbrev rgb : ℕ → ℕ → ℕ → Color
rgb r g b = record { red = r; green = g; blue = b }

abbrev hair_color : Color
hair_color = rgb 140 100 65

abbrev skin_color : Color
skin_color = rgb 235 200 165

abbrev eye_color : Color
eye_color = rgb 35 35 40

abbrev error_eye_color : Color
error_eye_color = rgb 210 60 60

abbrev mouth_color : Color
mouth_color = rgb 150 90 80

abbrev claude_orange : Color
claude_orange = rgb 218 119 86

-- `none` is Python's None, under which nothing is painted.
abbrev pub base_palette : Dict (Option Color)
base_palette =
    (".", none)
    ∷ ("H", some hair_color)
    ∷ ("S", some skin_color)
    ∷ ("E", some eye_color)
    ∷ ("X", some error_eye_color)
    ∷ ("M", some mouth_color)
    ∷ ("A", some skin_color)
    ∷ ("B", some claude_orange)
    ∷ []

abbrev pub frame_base : List String
frame_base =
    ".HHHHHH..." ∷ "HHHHHHHH.." ∷ "HSSSSSSSH." ∷ "HSSESSESH." ∷ "HSSSSSSSH." ∷ "HSSMMMSSH."
    ∷ ".HSSSSSH.." ∷ "..BBBBBB.." ∷ ".BBBBBBBB." ∷ ".BBBBBBBB." ∷ "AA.BBBB.AA" ∷ "..BB..BB.." ∷ []

abbrev pub frame_side_eye : List String
frame_side_eye =
    ".HHHHHH..." ∷ "HHHHHHHH.." ∷ "HSSSSSSSH." ∷ "HSESSESSH." ∷ "HSSSSSSSH." ∷ "HSSMMMSSH."
    ∷ ".HSSSSSH.." ∷ "..BBBBBB.." ∷ ".BBBBBBBB." ∷ ".BBBBBBBB." ∷ "AA.BBBB.AA" ∷ "..BB..BB.." ∷ []

abbrev pub frame_work2 : List String
frame_work2 =
    ".HHHHHH..." ∷ "HHHHHHHH.." ∷ "HSSSSSSSH." ∷ "HSSESSESH." ∷ "HSSSSSSSH." ∷ "HSSMMMSSH."
    ∷ ".HSSSSSH.." ∷ "..BBBBBB.." ∷ ".BBBBBBBB." ∷ ".BBBBBBBB." ∷ ".AABBBBAA." ∷ "..BB..BB.." ∷ []

abbrev pub frame_ask : List String
frame_ask =
    ".HHHHHH..." ∷ "HHHHHHHH.." ∷ "HSSSSSSSH." ∷ "HSSESSESH." ∷ "HSSSSSSSH." ∷ "HSSMMMSSHA"
    ∷ ".HSSSSSH.A" ∷ "..BBBBBB.." ∷ ".BBBBBBBB." ∷ ".BBBBBBBB." ∷ "AA.BBBB..." ∷ "..BB..BB.." ∷ []

abbrev pub frame_error : List String
frame_error =
    ".HHHHHH..." ∷ "HHHHHHHH.." ∷ "HSSSSSSSH." ∷ "HSSXSSXSH." ∷ "HSSSSSSSH." ∷ "HSSMMMSSH."
    ∷ ".HSSSSSH.." ∷ "..BBBBBB.." ∷ ".BBBBBBBB." ∷ ".BBBBBBBB." ∷ "AA.BBBB.AA" ∷ "..BB..BB.." ∷ []

abbrev pub all_frames : Dict (List String)
all_frames =
    ("base", frame_base)
    ∷ ("side_eye", frame_side_eye)
    ∷ ("work2", frame_work2)
    ∷ ("ask", frame_ask)
    ∷ ("error", frame_error)
    ∷ []

-- `_STATE_FRAME_SEQUENCE`, by the state's text.
abbrev pub idle_sequence : List String
idle_sequence = "base" ∷ "base" ∷ "base" ∷ "side_eye" ∷ []

abbrev pub state_frame_sequence : Dict (List String)
state_frame_sequence =
    ("idle", idle_sequence)
    ∷ ("working", "base" ∷ "work2" ∷ [])
    ∷ ("asking", "ask" ∷ [])
    ∷ ("error", "error" ∷ [])
    ∷ []
