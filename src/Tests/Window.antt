-- ===== src/Tests/Window.antt =====
-- Tests of what the window shows: desks, figures, texts, the display, the price of usage; and of
-- the event that a hook sends.
use silicon_office.Prelude.{
  ℕ, ◌+◌, ◌≤◌, String, ◌≡◌, refl, true, Bool, some, is_some, List, [], ◌∷◌, All, arith, str_dec,
  ◌==◌,
}
use silicon_office.Prelude.Dict.{Dict, lookup, insert}
use silicon_office.Json.{Json, str, num}
use silicon_office.Layout.{Layout}
use silicon_office.Layout.Desk.{
  DeskRow, desk_rect, desk_row, desk_y, y_offset, pitch, desk_min_gap, desks_apart,
}
use silicon_office.Pricing.{TokenUsage, cost_for_usage, cost_at, rate_of}
use silicon_office.Sprites.{frame_name_for, render_frame, sequence_for, nth}
use silicon_office.Sprites.Frames.{Color, all_frames}
use silicon_office.Sprites.Fits.{IsInside, frame_name_for_lem}
use silicon_office.Render
use silicon_office.Render.{Rendered, color_for_state}
use silicon_office.Render.Cached.{Fonts, Caches, AreSound, agent_texts, agent_texts_lem}
use silicon_office.Schema.{WireAgent, to_wire_dict}
use silicon_office.Tests.Daemon.{busy}
use silicon_office.Prelude.Int.{pos}
use silicon_office.Display.{Bounds, smallest_display_bounds, scan, smaller}
use silicon_office.Emitter.{prefix, IsWithinLimits, truthy, build_hook_event, build_hook_event_lem}
use silicon_office.Tests.Wire.{office}

program : Unit {0}
unfolding lookup insert str_dec desk_rect desk_row desk_y y_offset pitch cost_for_usage cost_at
    rate_of frame_name_for sequence_for nth smallest_display_bounds scan smaller truthy
program = tt

abbrev two_desks : Layout
two_desks = record office { slot_of_session = ("a", 0) ∷ ("b", 1) ∷ []; free_slots = [] }

desk_run : desk_rect two_desks "b" 500 ≡ some (record { top = 264; height = 200 })
unfolding program
desk_run = refl

desks_apart_example :
    (p : DeskRow) × (q : DeskRow) × (desk_rect two_desks "a" 100 ≡ some p)
    × (desk_rect two_desks "b" 100 ≡ some q)
    × (p.top + p.height + desk_min_gap ≤ q.top)
unfolding program
desks_apart_example = desks_apart two_desks "a" "b" 0 0 100 (omega arith) refl refl

abbrev usage : TokenUsage
usage = record {
  input_tokens = 100;
  output_tokens = 20;
  cache_creation_input_tokens = 40;
  cache_read_input_tokens = 10;
}

-- 100 * 5 + 20 * 25 + 40 * 5 * 1.25 + 10 * 5 * 0.1 dollars per million, in twentieths.
cost_run : cost_for_usage "claude-opus-4-8" usage ≡ 25100
unfolding program
cost_run = refl

idle_run : frame_name_for "idle" 7 ≡ some "side_eye"
unfolding program
idle_run = refl

frame_name_for_lem_example :
    (name : String) × (grid : List String) × (frame_name_for "working" 3 ≡ some name)
    × (lookup name all_frames ≡ some grid)
    × All IsInside (render_frame grid)
frame_name_for_lem_example = frame_name_for_lem "working" 3

-- A surface that is the text it shows.
abbrev draw : String → Color → String
draw text color = text

abbrev stale : Dict (Rendered String)
stale =
    ("0123456789 label", record { text = "Idle"; color = color_for_state "idle"; surface = "Idle" })
    ∷ []

stale-IsSound : Render.IsSound draw stale
unfolding program Render.IsSound
stale-IsSound key r h = ground arith

abbrev fonts : Fonts String
fonts = record { name = draw; label = draw; id = draw }

abbrev agent : WireAgent ℕ
agent = record (to_wire_dict busy) { session_id = "0123456789" }

-- The label cache holds an older label.
abbrev caches : Caches String
caches = record { name_cache = []; label_cache = stale; id_cache = [] }

empty-IsSound : Render.IsSound draw []
unfolding program Render.IsSound
empty-IsSound key r h = cc

agent_texts_lem_example :
    let ((id_surf, label_surf, name_surf), caches') = agent_texts fonts (some agent) caches in
    (id_surf ≡ "01234567")
    × (label_surf ≡ "Bash Execution")
    × (name_surf ≡ "proj")
    × AreSound fonts caches'
unfolding prefix to_wire_dict
agent_texts_lem_example =
    agent_texts_lem fonts (some agent) caches (empty-IsSound, stale-IsSound, empty-IsSound)

abbrev laptop : Bounds
laptop = record { left = pos 0; top = pos 0; w = 1440; h = 900 }

abbrev monitor : Bounds
monitor = record { left = pos 1440; top = pos 0; w = 2560; h = 1440 }

display_run : smallest_display_bounds (monitor ∷ laptop ∷ []) ≡ some laptop
unfolding program
display_run = refl

abbrev repr : Json → String
repr v = "?"

abbrev is_zero : String → Bool
is_zero n = n == "0"

abbrev now : ℕ
now = 4

abbrev payload : Dict Json
payload = ("session_id", str "s1") ∷ ("hook_event_name", str "Stop") ∷ ("tool_error", num "7") ∷ []

build_hook_event_lem_example :
    (is_some (build_hook_event repr is_zero payload now) ≡ true)
    × IsWithinLimits (build_hook_event repr is_zero payload now)
unfolding program
build_hook_event_lem_example = build_hook_event_lem repr is_zero payload now
